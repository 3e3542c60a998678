-- ===== src/Database/Get.antt =====
-- `get_db_value` and `check_db_key_existence` of database/src/prelude.rs.
pub mod Visible
pub mod Answered
use samaritan_db.Prelude.{
  Bool, true, false, Option, none, some, unwrap_or, is_empty, [], if◌then◌else◌,
}
use samaritan_db.Text.{Text, ◌==◌}
use samaritan_db.Dict.{Dict}
use samaritan_db.Dict
use samaritan_db.Database.Reply.{
  DbServerResult, ok, err, bake_error, bake_response, initialization_error, access_denied,
  entry_not_found, exists, get,
}
use samaritan_db.Database.State.{HashTable, TempCache, get_application_data}
use samaritan_db.Database.DataMap
use samaritan_db.Database.World.{M, ◌>>=◌, pure, gets}

-- Equality of the optional owners.
unfoldable pub same_owner : Option Text → Option Text → Bool
same_owner none none = true
same_owner (some a) (some b) = a == b
same_owner _ _ = false

-- The cached value for the key, if it was written for this owner.
unfoldable pub cached : Text → Option Text → Text → Dict TempCache → Option Text
cached did sam_did key cache = elim (Dict.lookup did cache) [
  | some app_cache ↦ elim (Dict.lookup key app_cache) [
    | some cache_entry ↦
        if same_owner cache_entry.sam_did sam_did then some cache_entry.value else none
    | none ↦ none
  ]
  | none ↦ none
]

-- What the memory store answers.
unfoldable pub read_memory : Text → Text → HashTable → DbServerResult
read_memory owner_did key hashtable = elim (Dict.lookup owner_did hashtable) [
  | some ht_data ↦
      if ht_data.access
      then elim (DataMap.get_data key ht_data.contents) [
        | some value ↦ elim (DataMap.get_access_state key ht_data.contents) [
          | some access_flag ↦
              if access_flag
              then ok (bake_response (get key value))
              else err (bake_error access_denied)
          | none ↦ err (bake_error entry_not_found)
        ]
        | none ↦ err (bake_error entry_not_found)
      ]
      else err (bake_error access_denied)
  | none ↦ err (bake_error entry_not_found)
]

unfoldable pub get_db_value : Text → Option Text → Text → M DbServerResult
unfolding read_memory
get_db_value did sam_did key = do
  hit ← gets (λ s. cached did sam_did key s.cache)
  hashtable ← gets (λ s. unwrap_or (get_application_data did s) [])
  pure (elim hit [
    | some value ↦ ok (bake_response (get key value))
    | none ↦
        if is_empty hashtable
        then err (bake_error initialization_error)
        else read_memory (unwrap_or sam_did did) key hashtable
  ])

unfoldable pub find_memory : Text → Text → HashTable → DbServerResult
find_memory owner_did key hashtable = elim (Dict.lookup owner_did hashtable) [
  | some ht_data ↦
      if ht_data.access
      then elim (DataMap.get_data key ht_data.contents) [
        | some _ ↦ elim (DataMap.get_access_state key ht_data.contents) [
          | some access_flag ↦
              if access_flag
              then ok (bake_response (exists true))
              else err (bake_error access_denied)
          | none ↦ ok (bake_response (exists false))
        ]
        | none ↦ ok (bake_response (exists false))
      ]
      else err (bake_error access_denied)
  | none ↦ ok (bake_response (exists false))
]

unfoldable pub check_db_key_existence : Text → Option Text → Text → M DbServerResult
unfolding find_memory
check_db_key_existence did sam_did key = do
  hit ← gets (λ s. cached did sam_did key s.cache)
  hashtable ← gets (λ s. unwrap_or (get_application_data did s) [])
  pure (elim hit [
    | some _ ↦ ok (bake_response (exists true))
    | none ↦
        if is_empty hashtable
        then err (bake_error initialization_error)
        else find_memory (unwrap_or sam_did did) key hashtable
  ])
