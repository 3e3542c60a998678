-- ===== src/Database/Init.antt =====
-- `init_application`, `localize_application_data` and `forget_application` of
-- database/src/prelude.rs, and `init_hashtable` of database/src/util.rs.
pub mod Authentication
use samaritan_db.Prelude.{
  Bool, true, false, Option, none, some, List, map, ltb, unwrap_or, length, is_empty, [], ◌&&◌, ◌∷◌,
  ◌++◌, if◌then◌else◌,
}
use samaritan_db.Text.{Text, codes}
use samaritan_db.Dict.{Dict}
use samaritan_db.Database.DataMap
use samaritan_db.Dict
use samaritan_db.Contract.Accounts.{authenticated}
use samaritan_db.Database.World.{
  save_application, modify, ChannelMsg, set_network_sync_flag, M, gets, store_flag, send,
  subscribe_node_to_application, current_unix_epoch, pure, unsubscribe_node_from_application, ◌>>=◌,
  ◌>>◌,
}
use samaritan_db.Database.State.{
  set_data, DataMap, SimpleHashTable, is_application_init, from_simple, add_application,
  remove_application, HashTable,
}
use samaritan_db.Database.Flush.{flush_cache}

-- What answers a node from outside of the program: the contract by way of `cargo contract`, the
-- IPFS client with its decryption, the JSON and hash libraries, and the network's side of the
-- channel.
pub record Outside : Type 0 where
  -- The hashtable link for a name and a secret, as `parse_contract_return_data` leaves it.
  pub get_app_ht_cid : Text → Text → Text
  pub fetch_from_ipfs : Text → Option Text
  pub write_to_ipfs : DataMap → Option Text
  pub hashtable_from_str : Text → Option SimpleHashTable
  pub data_map_from_str : Text → Option DataMap
  pub hash_string : Text → Text
  pub generate_auth_material : Text → Text
  -- Whether the network reports success for a message that waits for a reply.
  pub reply : ChannelMsg → Bool

abbrev pub protocol_version : Text
protocol_version = codes "/samaritan-os/0.1.0"

-- The JSON text with one entry, as `init_hashtable` formats it.
unfoldable pub init_hashtable : Outside → Text → Text → Option SimpleHashTable
init_hashtable out did cid = out.hashtable_from_str (
    codes "{\n            \""
    ++ (did
        ++ (codes "\": {\n                \"cid\": \""
            ++ (cid ++ codes "\",\n                \"access\": true\n            }\n        }"))))

-- Every simple entry becomes a proper one that names its owner.
unfoldable pub proper_hashtable : SimpleHashTable → HashTable
proper_hashtable t = map (λ e. (e.0, record (from_simple e.1) { did = e.0 })) t

-- `fetch_hashtable`
unfoldable pub fetch_hashtable : Outside → Text → Option SimpleHashTable
fetch_hashtable out cid = elim (out.fetch_from_ipfs cid) [
  | some raw_data ↦ out.hashtable_from_str raw_data
  | none ↦ none
]

-- A task that the program spawns.
pub data Task : Type 0 where
  localize : Text → Task

-- The loop over the entries: what cannot be fetched stays as it is, and what cannot be read
-- becomes empty.
unfoldable pub localize_entries : Outside → HashTable → HashTable
localize_entries out entries =
    map
      (λ e. elim (out.fetch_from_ipfs (e.1).cid) [
        | some text ↦ (e.0, set_data (unwrap_or (out.data_map_from_str text) []) e.1)
        | none ↦ e
      ])
      entries

unfoldable pub localize_application_data : Outside → Text → M (Unit {0})
localize_application_data out did = do
  store_flag false
  entries ← gets (λ s. unwrap_or (Dict.lookup did s.applications) [])
  save_application did (localize_entries out entries)
  send (set_network_sync_flag did)
  store_flag true
  flush_cache did

-- What loading the application leaves: whether to go on, and the tasks that were spawned.
abbrev pub Loaded : Type 0
Loaded = Bool × List Task

-- A link of more than nine bytes leads to the application's stored table.
unfoldable pub load_stored : Outside → Text → Text → M Loaded
load_stored out did hashtable_cid = elim (fetch_hashtable out hashtable_cid) [
  | some simple_hashtable ↦ do
    modify (add_application did (proper_hashtable simple_hashtable))
    pure (true, localize did ∷ [])
  | none ↦ pure (false, [])
]

-- Any shorter link makes a new table with one entry.
unfoldable pub load_new : Outside → Text → M Loaded
load_new out did = do
  now ← current_unix_epoch
  elim (out.write_to_ipfs (DataMap.insert (codes "protocol") protocol_version now [])) [
    | some cid ↦ do
      elim (init_hashtable out did cid) [
        | some simple_hashtable ↦ modify (add_application did (proper_hashtable simple_hashtable))
        | none ↦ pure tt
      ]
      store_flag true
      pure (true, [])
    | none ↦ pure (false, [])
  ]

-- The node joins the application's network, and keeps the secret if that succeeds.
unfoldable pub join_network : Outside → Text → Text → Text → M (Unit {0})
join_network out did auth_material hashtable_cid =
    let msg = subscribe_node_to_application did hashtable_cid in
    do
      send msg
      if out.reply msg
          then modify
              (λ s. record s { authenticated = Dict.insert did auth_material s.authenticated })
          else pure tt

unfoldable pub init_application : Outside → Text → Text → M (List Task)
init_application out did mnemonic = do
  let auth_material = out.hash_string mnemonic
  let hashtable_cid = out.get_app_ht_cid did auth_material
  (go_on, tasks) ←
      if ltb 9 (length hashtable_cid) then load_stored out did hashtable_cid else load_new out did
  there ← gets (is_application_init did)
  if go_on && there then join_network out did auth_material hashtable_cid else pure tt
  pure tasks

-- The secret is made in another way than in `init_application`.
unfoldable pub forget_application : Outside → Text → Text → M (Unit {0})
forget_application out did mnemonic =
    let auth_material = out.generate_auth_material mnemonic in
    let hashtable_cid = out.get_app_ht_cid did auth_material in
    if is_empty hashtable_cid
    then pure tt
    else (do modify (remove_application did); send (unsubscribe_node_from_application did))
