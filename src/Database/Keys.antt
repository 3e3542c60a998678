-- ===== src/Database/Keys.antt =====
-- `get_db_keys` of database/src/prelude.rs.
use samaritan_db.Prelude.{
  reverse, ℕ, zero, suc, Option, none, some, unwrap_or, length, is_empty, [], if◌then◌else◌,
}
use samaritan_db.Text.{Text, codes}
use samaritan_db.Dict.{Dict}
use samaritan_db.Dict
use samaritan_db.Text.Split.{join, strip_prefix}
use samaritan_db.Database.Reply.{
  DbServerResult, ok, err, bake_error, bake_response, initialization_error, access_denied,
  entry_not_found, keys,
}
use samaritan_db.Database.State.{HashTable, get_application_data}
use samaritan_db.Database.DataMap
use samaritan_db.Database.World.{M, ◌>>=◌, pure, gets}

-- `trim_end_matches(", ")`, on the reversed text and on fuel: each step takes two bytes off.
unfoldable pub trim_start : ℕ → Text → Text → Text
trim_start zero pat s = s
trim_start (suc f) pat s = elim (strip_prefix pat s) [
  | some rest ↦ trim_start f pat rest
  | none ↦ s
]

unfoldable pub trim_end_matches : Text → Text → Text
unfolding trim_start
trim_end_matches pat s = reverse (trim_start (length s) (reverse pat) (reverse s))

unfoldable pub list_keys : Text → ℕ → ℕ → HashTable → DbServerResult
list_keys owner_did offset len hashtable = elim (Dict.lookup owner_did hashtable) [
  | some ht_data ↦
      if ht_data.access
      then (let joined = join (codes ", ") (DataMap.get_keys offset len ht_data.contents) in
          ok (bake_response (keys (trim_end_matches (codes ", ") joined))))
      else err (bake_error access_denied)
  | none ↦ err (bake_error entry_not_found)
]

unfoldable pub get_db_keys : Text → Option Text → ℕ → ℕ → M DbServerResult
unfolding list_keys
get_db_keys did sam_did offset len = do
  hashtable ← gets (λ s. unwrap_or (get_application_data did s) [])
  pure (
      if is_empty hashtable
      then err (bake_error initialization_error)
      else list_keys (unwrap_or sam_did did) offset len hashtable)
