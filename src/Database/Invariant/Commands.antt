-- ===== src/Database/Invariant/Commands.antt =====
-- Every command and every gossiped message keeps the invariant.
use samaritan_db.Prelude.{
  ℕ, refl, inl, inr, Bool, Option, none, some, Bool-cases, unwrap_or, is_some, [], ◌+◌, ◌≡◌,
}
use samaritan_db.Text.{Text}
use samaritan_db.Dict.{Dict, IsMap, remove-IsMap}
use samaritan_db.Database.DataMap
use samaritan_db.Dict
use samaritan_db.Text.Number.{u64_limit, u8_limit, parse_uint}
use samaritan_db.Database.Set.Effect.{written_entry}
use samaritan_db.Database.Invariant.Writes.{
  apply_gossip-keeps, truncate_db_keys-keeps, del_db_value-keeps, set_db_value-keeps,
  manage_db_access-keeps,
}
use samaritan_db.Database.Set.{fresh_entry, set_db_value}
use samaritan_db.Database.Del.{truncate_db_keys, del_db_value}
use samaritan_db.Database.World.{World}
use samaritan_db.Database.View.{table_of, entry_of}
use samaritan_db.Database.State.{HashTableData, DbState, CacheData}
use samaritan_db.Database.Invariant.{
  contents-IsMap, cached-IsWellFormed, IsWellFormed, saved-IsWellFormed, cache-IsMap,
  replaced-IsWellFormed, insert-IsTable,
}
use samaritan_db.Database.Gossip.{
  handle_gossiped_data, write_data_type, or_default, apply_gossip, WriteDataType,
}
use samaritan_db.Database.Access.{manage_db_access}

module _ (did : Text) (w : World) (h : IsWellFormed w.state) where
  pub set_db_value-IsWellFormed :
      (sam_did : Option Text) (key value : Text)
      → IsWellFormed (set_db_value did sam_did key value w).1.state
  set_db_value-IsWellFormed sam_did key value =
      set_db_value-keeps IsWellFormed did sam_did w key value h
        (replaced-IsWellFormed did owner
          (written_entry owner key value now (entry_of did owner w.state)) w.state
          (written-IsMap (entry_of did owner w.state) refl) h)
        (cached-IsWellFormed did
          (Dict.insert key entry (unwrap_or (Dict.lookup did w.state.cache) [])) w.state
          (Dict.insert-IsMap key entry (unwrap_or (Dict.lookup did w.state.cache) [])
            (cache-IsMap did w.state h))
          h)
    where
      owner : Text
      owner = unwrap_or sam_did did

      now : ℕ
      now = w.clock (w.readings + 1)

      entry : CacheData
      entry = record { sam_did = sam_did; value = value; write_time = w.clock w.readings }

      written-IsMap :
          (o : Option HashTableData)
          → entry_of did owner w.state ≡ o
          → IsMap (written_entry owner key value now o).contents
      written-IsMap none e = Dict.insert-IsMap key (DataMap.written value now) [] tt
      written-IsMap (some i) e =
          DataMap.insert-IsMap key value now i.contents (contents-IsMap owner w.state did i h e)

  pub del_db_value-IsWellFormed :
      (sam_did : Option Text) (key : Text) → IsWellFormed (del_db_value did sam_did key w).1.state
  del_db_value-IsWellFormed sam_did key =
      del_db_value-keeps IsWellFormed did sam_did w key h
        (cached-IsWellFormed did (Dict.remove key (unwrap_or (Dict.lookup did w.state.cache) []))
          w.state
          (Dict.remove-IsMap key (unwrap_or (Dict.lookup did w.state.cache) [])
            (cache-IsMap did w.state h))
          h)
        (λ e found.
          replaced-IsWellFormed did (unwrap_or sam_did did)
            (record e { contents = Dict.remove key e.contents }) w.state
            (Dict.remove-IsMap key e.contents
              (contents-IsMap (unwrap_or sam_did did) w.state did e h found))
            h)

  pub truncate_db_keys-IsWellFormed :
      (sam_did : Option Text) → IsWellFormed (truncate_db_keys did sam_did w).1.state
  truncate_db_keys-IsWellFormed sam_did = truncate_db_keys-keeps IsWellFormed did sam_did w h (λ e.
      replaced-IsWellFormed did (unwrap_or sam_did did) (record e { contents = [] }) w.state tt h)

  pub manage_db_access-IsWellFormed :
      (owner : Text) (perm : Bool) → IsWellFormed (manage_db_access did owner perm w).1.state
  manage_db_access-IsWellFormed owner perm =
      manage_db_access-keeps IsWellFormed did owner w perm h (λ e found.
        replaced-IsWellFormed did owner
          (record e { access = perm; access_modification_time = w.clock w.readings }) w.state
          (contents-IsMap owner w.state did e h found) h)

  apply_gossip-IsWellFormed :
      (kind : WriteDataType) (key value owner : Text) (t : ℕ)
      → IsWellFormed (apply_gossip kind did key value owner t (table_of did w.state) w).1.state
  apply_gossip-IsWellFormed kind key value owner t =
      apply_gossip-keeps IsWellFormed did key value owner t w h kind
        (saved-IsWellFormed did (Dict.insert owner first []) w.state
          (insert-IsTable owner first [] (Dict.insert-IsMap key (DataMap.written value now) [] tt)
            (tt, tt))
          h)
        (λ e e' found keeps.
          replaced-IsWellFormed did owner e' w.state
            (keeps (contents-IsMap owner w.state did e h found)) h)
    where
      now : ℕ
      now = w.clock w.readings

      first : HashTableData
      first = fresh_entry owner key value now

or_default-IsWellFormed :
    (did : Text) (s : DbState) → IsWellFormed s → IsWellFormed (or_default did s)
unfolding or_default
or_default-IsWellFormed did s h = elim (Bool-cases (is_some (Dict.lookup did s.applications))) [
  | inl there ↦ rw there h
  | inr missing ↦ rw missing (saved-IsWellFormed did [] s (tt, tt) h)
]

pub handle_gossiped_data-IsWellFormed :
    (did key value owner write_time write_type : Text) (w : World)
    → IsWellFormed w.state
    → IsWellFormed (handle_gossiped_data did key value owner write_time write_type w).1.state
unfolding handle_gossiped_data
handle_gossiped_data-IsWellFormed did key value owner write_time write_type w h =
    apply_gossip-IsWellFormed did (record w { state = or_default did w.state })
      (or_default-IsWellFormed did w.state h)
      (write_data_type (unwrap_or (parse_uint u8_limit write_type) 0)) key value owner
      (unwrap_or (parse_uint u64_limit write_time) 0)
