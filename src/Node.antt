-- ===== src/Node.antt =====
-- A node of the database as a whole: what it does, one step after the other, with the entry points
-- of database/src/prelude.rs and database/src/server.rs; and what holds of every state that it
-- reaches.
use samaritan_db.Prelude.{inl, inr, Bool, Bool-cases, ◌≡◌}
use samaritan_db.Text.{Text, codes, ◌==◌}
use samaritan_db.Dict.{Dict}
use samaritan_db.Server.Loops.{handle_client_req-keeps}
use samaritan_db.Dict
use samaritan_db.Command.Execute.{shutdown_db, change_db_cfg, get_db_info, execute}
use samaritan_db.Database.Invariant.Loads.{
  GivesMaps, forget_application-keeps, localize_entries-IsTable, localize_application_data-keeps,
  init_application-keeps, proper_hashtable-IsTable,
}
use samaritan_db.Database.Invariant.Commands.{
  truncate_db_keys-IsWellFormed, set_db_value-IsWellFormed, del_db_value-IsWellFormed,
  manage_db_access-IsWellFormed, handle_gossiped_data-IsWellFormed,
}
use samaritan_db.Database.Keys.{get_db_keys}
use samaritan_db.Database.World.{World}
use samaritan_db.Database.View.{table_of}
use samaritan_db.Database.State.{new_state, HashTable}
use samaritan_db.Database.Init.{
  Outside, localize_entries, proper_hashtable, init_application, localize_application_data,
  forget_application,
}
use samaritan_db.Database.Invariant.{
  IsWellFormed, saved-IsWellFormed, uncached-IsWellFormed, removed-IsWellFormed, unwrap_or-IsTable,
  secret-IsWellFormed,
}
use samaritan_db.Database.Gossip.{handle_gossiped_data}
use samaritan_db.Database.Access.{manage_db_access}
use samaritan_db.Database.Get.{check_db_key_existence, get_db_value}
use samaritan_db.Server.{ServerIncomingData, handle_client_req}
use samaritan_db.Command.{Command}

-- One step of a node: a command, a client's request, a message of a peer, the task that an
-- initialization spawns, or an owner's change of permission.
pub data Step (out : Outside) (w : World) : World → Type 0 where
  executed : (c : Command) {w' : World} → w' ≡ (execute out c w).1 → Step out w w'
  requested :
      (input : ServerIncomingData) {w' : World}
      → w' ≡ (handle_client_req out input w).1
      → Step out w w'
  gossiped_to :
      (did key value owner write_time write_type : Text) {w' : World}
      → w' ≡ (handle_gossiped_data did key value owner write_time write_type w).1
      → Step out w w'
  localized :
      (did : Text) {w' : World} → w' ≡ (localize_application_data out did w).1 → Step out w w'
  permitted :
      (did owner : Text) (perm : Bool) {w' : World}
      → w' ≡ (manage_db_access did owner perm w).1
      → Step out w w'

-- The worlds that a node passes through after its start, in any order of steps.
pub data Reach (out : Outside) : World → Type 0 where
  started : {w : World} → w.state ≡ new_state → Reach out w
  then_step : {w w' : World} → Reach out w → Step out w w' → Reach out w'

pub new_state-IsWellFormed : IsWellFormed new_state
new_state-IsWellFormed = record {
  applications = tt;
  tables = tt;
  caches = tt;
  entries = tt;
  secrets = tt;
}

module _ (out : Outside) (gives : GivesMaps out) where
  init_application-IsWellFormed :
      (did mnemonic : Text) (w : World)
      → IsWellFormed w.state
      → IsWellFormed (init_application out did mnemonic w).1.state
  init_application-IsWellFormed did mnemonic w h =
      init_application-keeps IsWellFormed out did mnemonic w h
        (λ s t read.
          saved-IsWellFormed did (proper_hashtable t) w.state
            (proper_hashtable-IsTable t (gives.tables s t read)) h)
        (λ s k. secret-IsWellFormed did (out.hash_string mnemonic) s k)

  forget_application-IsWellFormed :
      (did mnemonic : Text) (w : World)
      → IsWellFormed w.state
      → IsWellFormed (forget_application out did mnemonic w).1.state
  forget_application-IsWellFormed did mnemonic w h =
      forget_application-keeps IsWellFormed out did w h mnemonic
        (removed-IsWellFormed did w.state h)

  localize_application_data-IsWellFormed :
      (did : Text) (w : World)
      → IsWellFormed w.state
      → IsWellFormed (localize_application_data out did w).1.state
  localize_application_data-IsWellFormed did w h =
      localize_application_data-keeps IsWellFormed out did w h loaded
        (uncached-IsWellFormed _ loaded)
    where
      table : HashTable
      table = localize_entries out (table_of did w.state)

      loaded :
          IsWellFormed
            (record w.state { applications = Dict.insert did table w.state.applications })
      loaded =
          saved-IsWellFormed did table w.state
            (localize_entries-IsTable out gives (table_of did w.state)
              (unwrap_or-IsTable did w.state h))
            h

  execute-IsWellFormed :
      (c : Command) (w : World) → IsWellFormed w.state → IsWellFormed (execute out c w).1.state
  unfolding execute
  execute-IsWellFormed Command.info w h = unfold get_db_info in h
  execute-IsWellFormed Command.help w h = h
  execute-IsWellFormed Command.quit w h = unfold shutdown_db in h
  execute-IsWellFormed (Command.init did mnemonic) w h =
      init_application-IsWellFormed did mnemonic w h
  execute-IsWellFormed (Command.set did sam_did key value) w h =
      set_db_value-IsWellFormed did w h sam_did key value
  execute-IsWellFormed (Command.get did sam_did key) w h = unfold get_db_value in h
  execute-IsWellFormed (Command.del did sam_did key) w h =
      del_db_value-IsWellFormed did w h sam_did key
  execute-IsWellFormed (Command.exists did sam_did key) w h = unfold check_db_key_existence in h
  execute-IsWellFormed (Command.keys did sam_did offset len) w h = unfold get_db_keys in h
  execute-IsWellFormed (Command.truncate did sam_did) w h =
      truncate_db_keys-IsWellFormed did w h sam_did
  execute-IsWellFormed (Command.leave did mnemonic) w h =
      forget_application-IsWellFormed did mnemonic w h
  execute-IsWellFormed (Command.config did flag param) w h =
      elim (Bool-cases (flag == codes "-url")) [
        | inl url ↦ unfold change_db_cfg in rw url h
        | inr other ↦ unfold change_db_cfg in rw other h
      ]
  execute-IsWellFormed Command.invalid w h = h

  pub Step-IsWellFormed :
      {w w' : World} → Step out w w' → IsWellFormed w.state → IsWellFormed w'.state
  Step-IsWellFormed {w} (executed c e) h = rw e (execute-IsWellFormed c w h)
  Step-IsWellFormed {w} (requested input e) h =
      rw e (handle_client_req-keeps IsWellFormed out execute-IsWellFormed input w h)
  Step-IsWellFormed {w} (gossiped_to did key value owner write_time write_type e) h =
      rw e (handle_gossiped_data-IsWellFormed did key value owner write_time write_type w h)
  Step-IsWellFormed {w} (localized did e) h = rw e (localize_application_data-IsWellFormed did w h)
  Step-IsWellFormed {w} (permitted did owner perm e) h =
      rw e (manage_db_access-IsWellFormed did w h owner perm)

  -- Whatever commands, requests, messages of peers, spawned tasks and changes of permission a node
  -- has handled since its start, in whatever order, no map of its state lists a key twice: not the
  -- applications, nor any application's owners, any owner's keys, the cached keys or the passwords.
  -- (The maps that the JSON library reads list no key twice.)
  pub Reach-IsWellFormed : {w : World} → Reach out w → IsWellFormed w.state
  Reach-IsWellFormed (started e) = rw e new_state-IsWellFormed
  Reach-IsWellFormed (then_step {w} r s) = Step-IsWellFormed s (Reach-IsWellFormed r)
