-- ===== src/Database/Del.antt =====
-- `del_db_value` and `truncate_db_keys` of database/src/prelude.rs.
pub mod Effect
pub mod Truncate
use samaritan_db.Prelude.{Option, none, some, unwrap_or, is_some, is_empty, [], if◌then◌else◌}
use samaritan_db.Text.{Text}
use samaritan_db.Dict.{Dict}
use samaritan_db.Dict
use samaritan_db.Database.Reply.{
  DbServerResult, ok, err, bake_error, bake_response, initialization_error, access_denied,
  entry_not_found, empty,
}
use samaritan_db.Database.State.{HashTableData, HashTable, get_application_data, set_data}
use samaritan_db.Database.DataMap
use samaritan_db.Database.Get.{cached}
use samaritan_db.Database.World.{
  M, ◌>>=◌, ◌>>◌, pure, gets, send, current_unix_epoch, save_application, save_cache,
  set_network_sync_flag, gossip_delete_event, gossip_truncate_event,
}

-- The entry with the key taken out is saved, and the change is announced.
unfoldable pub delete_entry : Text → Text → Text → HashTable → HashTableData → M DbServerResult
delete_entry did owner_did key hashtable ht_data = do
  let ht_entry = set_data (DataMap.delete_data_entry key ht_data.contents) ht_data
  save_application did (Dict.insert owner_did ht_entry hashtable)
  send (set_network_sync_flag did)
  now ← current_unix_epoch
  send (gossip_delete_event did key owner_did now)
  pure (ok (bake_response empty))

unfoldable pub delete_memory : Text → Text → Text → HashTable → M DbServerResult
unfolding delete_entry
delete_memory did owner_did key hashtable = elim (Dict.lookup owner_did hashtable) [
  | some ht_data ↦
      if ht_data.access
      then elim (DataMap.get_data key ht_data.contents) [
        | some _ ↦ elim (DataMap.get_access_state key ht_data.contents) [
          | some access_flag ↦
              if access_flag
              then delete_entry did owner_did key hashtable ht_data
              else pure (err (bake_error access_denied))
          | none ↦ pure (err (bake_error entry_not_found))
        ]
        | none ↦ pure (err (bake_error entry_not_found))
      ]
      else pure (err (bake_error access_denied))
  | none ↦ pure (err (bake_error entry_not_found))
]

-- A cached entry is dropped, and nothing is announced.
unfoldable pub delete_cached : Text → Text → M DbServerResult
delete_cached did key = do
  app_cache ← gets (λ s. unwrap_or (Dict.lookup did s.cache) [])
  save_cache did (Dict.remove key app_cache)
  pure (ok (bake_response empty))

unfoldable pub del_db_value : Text → Option Text → Text → M DbServerResult
unfolding delete_memory delete_cached
del_db_value did sam_did key = do
  hit ← gets (λ s. cached did sam_did key s.cache)
  hashtable ← gets (λ s. unwrap_or (get_application_data did s) [])
  if is_some hit
      then delete_cached did key
      else (if is_empty hashtable
          then pure (err (bake_error initialization_error))
          else delete_memory did (unwrap_or sam_did did) key hashtable)

-- The entry emptied, saved and announced.
unfoldable pub clear_entry : Text → Text → HashTable → HashTableData → M DbServerResult
clear_entry did owner_did hashtable ht_data = do
  let ht_entry = set_data (DataMap.clear ht_data.contents) ht_data
  save_application did (Dict.insert owner_did ht_entry hashtable)
  send (set_network_sync_flag did)
  now ← current_unix_epoch
  send (gossip_truncate_event did owner_did now)
  pure (ok (bake_response empty))

unfoldable pub truncate_memory : Text → Text → HashTable → M DbServerResult
unfolding clear_entry
truncate_memory did owner_did hashtable = elim (Dict.lookup owner_did hashtable) [
  | some ht_data ↦
      if ht_data.access
      then clear_entry did owner_did hashtable ht_data
      else pure (err (bake_error access_denied))
  | none ↦ pure (err (bake_error entry_not_found))
]

unfoldable pub truncate_db_keys : Text → Option Text → M DbServerResult
unfolding truncate_memory
truncate_db_keys did sam_did = do
  hashtable ← gets (λ s. unwrap_or (get_application_data did s) [])
  if is_empty hashtable
      then pure (err (bake_error initialization_error))
      else truncate_memory did (unwrap_or sam_did did) hashtable
