-- ===== src/Database/Set.antt =====
-- `set_db_value` of database/src/prelude.rs.
use samaritan_db.Prelude.{ℕ, true, Option, none, some, unwrap_or, is_some, [], if◌then◌else◌}
use samaritan_db.Text.{Text}
use samaritan_db.Dict.{Dict}
pub mod Effect
pub mod Cache
pub mod Overlap
pub mod Lost
use samaritan_db.Dict
use samaritan_db.Database.Reply.{
  DbServerResult, ok, err, bake_error, bake_response, initialization_error, empty,
}
use samaritan_db.Database.State.{HashTableData, HashTable, insert_data}
use samaritan_db.Database.DataMap
use samaritan_db.Database.World.{
  M, ◌>>=◌, ◌>>◌, pure, gets, send, current_unix_epoch, load_flag, save_application, save_cache,
  set_network_sync_flag, gossip_write_data,
}

-- The hash table entry that is made for an owner without one.
abbrev pub fresh_entry : Text → Text → Text → ℕ → HashTableData
fresh_entry owner_did key value now = record {
  did = owner_did;
  cid = [];
  access = true;
  contents = Dict.insert key (DataMap.written value now) [];
  access_modification_time = 0;
}

-- The write to memory: into the owner's entry, or into a new one.
unfoldable pub write_value : Text → Text → Text → HashTable → M HashTable
write_value owner_did key value app_data = elim (Dict.lookup owner_did app_data) [
  | some ref_data ↦ do
    now ← current_unix_epoch
    let entry : HashTableData = record ref_data {
      contents = DataMap.insert key value now ref_data.contents;
    }
    pure (Dict.insert owner_did entry app_data)
  | none ↦ do
    now ← current_unix_epoch
    pure (Dict.insert owner_did (fresh_entry owner_did key value now) app_data)
]

-- The branch taken once the initialization is complete.
unfoldable pub write_to_memory : Text → Text → Text → Text → M (Unit {0})
unfolding write_value
write_to_memory did owner_did key value = do
  app_data ← gets (λ s. unwrap_or (Dict.lookup did s.applications) [])
  app_data' ← write_value owner_did key value app_data
  save_application did app_data'
  send (set_network_sync_flag did)

-- The branch taken while an initialization is going on.
unfoldable pub write_to_cache : Text → Option Text → Text → Text → ℕ → M (Unit {0})
write_to_cache did sam_did key value now = do
  entries ← gets (λ s. unwrap_or (Dict.lookup did s.cache) [])
  save_cache did (insert_data sam_did key value now entries)

unfoldable pub set_initialized : Text → Option Text → Text → Text → M DbServerResult
unfolding write_to_memory write_to_cache
set_initialized did sam_did key value = do
  now ← current_unix_epoch
  let owner_did = unwrap_or sam_did did
  complete ← load_flag
  if complete
      then write_to_memory did owner_did key value
      else write_to_cache did sam_did key value now
  send (gossip_write_data did key value owner_did now)
  pure (ok (bake_response empty))

unfoldable pub set_db_value : Text → Option Text → Text → Text → M DbServerResult
unfolding set_initialized
set_db_value did sam_did key value = do
  app ← gets (λ s. Dict.lookup did s.applications)
  if is_some app
      then set_initialized did sam_did key value
      else pure (err (bake_error initialization_error))
