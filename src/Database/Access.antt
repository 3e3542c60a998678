-- ===== src/Database/Access.antt =====
-- `manage_db_access` of database/src/prelude.rs.
pub mod Effect
use samaritan_db.Prelude.{Bool, none, some, unwrap_or, is_empty, [], if◌then◌else◌}
use samaritan_db.Text.{Text}
use samaritan_db.Dict.{Dict}
use samaritan_db.Dict
use samaritan_db.Database.State.{HashTableData, HashTable, get_application_data, add_application}
use samaritan_db.Database.World.{
  M, ◌>>=◌, ◌>>◌, pure, gets, modify, send, current_unix_epoch, set_network_sync_flag,
  gossip_access_change,
}

-- The owner's access bit is set, saved and announced. The clock is read once for the entry and
-- once for the announcement.
unfoldable pub change_access : Text → Text → Bool → HashTable → HashTableData → M (Unit {0})
change_access did owner_did perm hashtable ht_data = do
  now ← current_unix_epoch
  let entry : HashTableData = record ht_data { access = perm; access_modification_time = now }
  modify (add_application did (Dict.insert owner_did entry hashtable))
  send (set_network_sync_flag did)
  later ← current_unix_epoch
  send (gossip_access_change perm did owner_did later)

unfoldable pub change_owner : Text → Text → Bool → HashTable → M (Unit {0})
unfolding change_access
change_owner did owner_did perm hashtable = elim (Dict.lookup owner_did hashtable) [
  | some ht_data ↦ change_access did owner_did perm hashtable ht_data
  | none ↦ pure tt
]

-- An application or an owner that is not there is only reported.
unfoldable pub manage_db_access : Text → Text → Bool → M (Unit {0})
unfolding change_owner
manage_db_access did owner_did perm = do
  hashtable ← gets (λ s. unwrap_or (get_application_data did s) [])
  if is_empty hashtable then pure tt else change_owner did owner_did perm hashtable
