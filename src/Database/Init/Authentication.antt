-- ===== src/Database/Init/Authentication.antt =====
-- Who is let in by `init_application`, and whom `forget_application` obeys.
use samaritan_db.Prelude.{
  refl, true, none, some, List, arith, ltb, length, [], ◌+◌, ◌≤◌, ◌≡◌, ◌∙◌, ◌∷◌, if◌then◌else◌,
}
use samaritan_db.Text.{Text, codes, eq_refl}
use samaritan_db.Dict.{Dict}
use samaritan_db.Database.DataMap
use samaritan_db.Dict
use samaritan_db.Util.ReturnData.{
  output_of, IsSilent, parse_contract_return_data, parse_contract_return_data-silent,
}
use samaritan_db.Database.Set.Effect.{stored}
use samaritan_db.Database.World.{
  ChannelMsg, unsubscribe_node_from_application, World, subscribe_node_to_application,
}
use samaritan_db.Database.State.{SimpleHashTable, is_application_init, add_application}
use samaritan_db.Database.Init.{
  init_application, protocol_version, init_hashtable, forget_application, Outside, proper_hashtable,
  Task, load_stored, join_network, load_new,
}

-- The application's first table is made.
pub load_new_lem :
    (out : Outside) (did cid : Text) (table : SimpleHashTable) (w : World)
    → out.write_to_ipfs (DataMap.insert (codes "protocol") protocol_version (w.clock w.readings) [])
      ≡ some cid
    → init_hashtable out did cid ≡ some table
    → load_new out did w ≡ (
      (true, []),
      record w {
        state = add_application did (proper_hashtable table) w.state;
        initialization_complete = true;
        readings = w.readings + 1;
      },
    )
unfolding load_new
load_new_lem out did cid table w stored made = ground arith

-- A node whose loading went well joins the network and keeps the secret.
init_application_lem :
    (out : Outside) (did mnemonic : Text) (w w1 : World) (tasks : List Task)
    → (if ltb 9 (length (out.get_app_ht_cid did (out.hash_string mnemonic)))
          then load_stored out did (out.get_app_ht_cid did (out.hash_string mnemonic))
          else load_new out did)
        w
      ≡ ((true, tasks), w1)
    → is_application_init did w1.state ≡ true
    → ((msg : ChannelMsg) → out.reply msg ≡ true)
    → init_application out did mnemonic w ≡ (
      tasks,
      record w1 {
        state = record (w1.state) {
          authenticated = Dict.insert did (out.hash_string mnemonic) w1.state.authenticated;
        };
        sent =
            subscribe_node_to_application did (out.get_app_ht_cid did (out.hash_string mnemonic))
            ∷ w1.sent;
      },
    )
unfolding init_application join_network
init_application_lem out did mnemonic w w1 tasks loaded there joined =
    let link = out.get_app_ht_cid did (out.hash_string mnemonic) in
    rw loaded (rw there (rw (joined (subscribe_node_to_application did link))))

-- With a link of at most nine bytes, which is how a wrong secret is answered too, and an outside
-- that stores the first data and lets the node join, any mnemonic is accepted for any application:
-- it is kept as the application's secret, and a new table replaces what the node held for it.
pub init_application_accepts :
    (out : Outside) (did mnemonic cid : Text) (table : SimpleHashTable) (w : World)
    → length (out.get_app_ht_cid did (out.hash_string mnemonic)) ≤ 9
    → out.write_to_ipfs (DataMap.insert (codes "protocol") protocol_version (w.clock w.readings) [])
      ≡ some cid
    → init_hashtable out did cid ≡ some table
    → ((msg : ChannelMsg) → out.reply msg ≡ true)
    → let w' = (init_application out did mnemonic w).1 in
      (Dict.lookup did w'.state.authenticated ≡ some (out.hash_string mnemonic))
      × (Dict.lookup did w'.state.applications ≡ some (proper_hashtable table))
      × (w'.initialization_complete ≡ true)
init_application_accepts out did mnemonic cid table w short stored made joined =
    rw (init_application_lem out did mnemonic w w1 [] loaded there joined) (
      ground (
        arith,
        eq_refl did,
        Dict.lookup-insert did did (out.hash_string mnemonic) w.state.authenticated,
        Dict.lookup-insert did did (proper_hashtable table) w.state.applications,
      ))
  where
    w1 : World
    w1 = record w {
      state = add_application did (proper_hashtable table) w.state;
      initialization_complete = true;
      readings = w.readings + 1;
    }

    there : is_application_init did w1.state ≡ true
    there = ground (
      arith,
      eq_refl did,
      Dict.lookup-insert did did (proper_hashtable table) w.state.applications,
    )

    loaded :
        (if ltb 9 (length (out.get_app_ht_cid did (out.hash_string mnemonic)))
            then load_stored out did (out.get_app_ht_cid did (out.hash_string mnemonic))
            else load_new out did)
          w
        ≡ ((true, []), w1)
    loaded = ground (arith, load_new_lem out did cid table w stored made)

-- With an answer of the contract that carries no bytes, as for a wrong secret, the application is
-- removed all the same: the empty answer is read as one NUL byte, which is not the empty text.
pub forget_application_obeys :
    (out : Outside) (did mnemonic binding : Text) (w : World)
    → out.get_app_ht_cid did (out.generate_auth_material mnemonic)
      ≡ parse_contract_return_data binding
    → IsSilent (output_of binding)
    → let w' = (forget_application out did mnemonic w).1 in
      (Dict.lookup did w'.state.applications ≡ none)
      × (w'.sent ≡ unsubscribe_node_from_application did ∷ w.sent)
unfolding forget_application
forget_application_obeys out did mnemonic binding w answer silent =
    let nul : out.get_app_ht_cid did (out.generate_auth_material mnemonic) ≡ 0 ∷ [] =
      answer ∙ parse_contract_return_data-silent binding silent in
    rw (nul, forget_application)
      (Dict.lookup-remove did did w.state.applications ∙ rw (eq_refl did), refl)
