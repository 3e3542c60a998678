-- ===== src/Database/Flush.antt =====
-- `flush_cache` of database/src/prelude.rs.
pub mod Effect
use samaritan_db.Prelude.{none, some, List, map, unwrap_or, is_empty, [], ◌∷◌, if◌then◌else◌}
use samaritan_db.Text.{Text}
use samaritan_db.Dict.{Dict}
use samaritan_db.Database.DataMap
use samaritan_db.Dict
use samaritan_db.Database.Set.{fresh_entry}
use samaritan_db.Database.World.{
  pure, current_unix_epoch, save_application, set_network_sync_flag, send, gets, modify, M, ◌>>=◌,
  ◌>>◌,
}
use samaritan_db.Database.State.{DataMap, HashTableData, TempCache, CacheData}

-- The body of the asynchronous block for one cached entry.
unfoldable pub flush_entry : Text → Text → CacheData → M (Unit {0})
flush_entry did key cache_data =
    let owner_did = unwrap_or cache_data.sam_did did in
    do
      application ← gets (λ s. Dict.lookup did s.applications)
      elim application [
        | some app_data ↦ elim (Dict.lookup owner_did app_data) [
          | some ref_data ↦ do
            now ← current_unix_epoch
            let entry : HashTableData = record ref_data {
              contents = DataMap.insert key cache_data.value now ref_data.contents;
            }
            save_application did (Dict.insert owner_did entry app_data)
            send (set_network_sync_flag did)
          | none ↦ do
            now ← current_unix_epoch
            save_application did
                (Dict.insert owner_did (fresh_entry owner_did key cache_data.value now) [])
            send (set_network_sync_flag did)
        ]
        | none ↦ pure tt
      ]

-- The blocks that `iter().map(...).collect()` builds, one for each cached entry.
unfoldable pub flush_tasks : Text → TempCache → List (M (Unit {0}))
flush_tasks did entries = map (λ e. flush_entry did e.0 e.1) entries

-- A future that nobody awaits does nothing when it is dropped.
unfoldable pub drop_tasks : List (M (Unit {0})) → M (Unit {0})
drop_tasks [] = pure tt
drop_tasks (task ∷ tasks) = drop_tasks tasks

-- The blocks are collected and dropped without an `.await`; then the caches of all applications
-- are cleared.
unfoldable pub flush_cache : Text → M (Unit {0})
flush_cache did = do
  entries ← gets (λ s. unwrap_or (Dict.lookup did s.cache) [])
  if is_empty entries
      then pure tt
      else (do drop_tasks (flush_tasks did entries); modify (λ s. record s { cache = [] }))
