-- ===== src/Network/Image.antt =====
-- `update_data_image` of database/src/network.rs, as code that runs without interruption: the upload
-- of an application's data, the table of content ids, and the contract's copy of it.
pub mod Entries
use samaritan_db.Prelude.{
  false, not, Option, none, some, List, map, unwrap_or, is_empty, [], ◌∷◌, ◌++◌, if◌then◌else◌,
}
use samaritan_db.Text.{Text, ◌==◌}
use samaritan_db.Dict.{Dict}
use samaritan_db.Dict
use samaritan_db.Network.State.{IpfsManager}
use samaritan_db.Database.State.{
  HashTable, DataMap, HashTableData, add_application, DbState, to_simple, get_application_data,
  SimpleHashTable,
}

-- The calls of outside programs and servers whose answers change nothing.
pub data Call : Type 0 where
  pin_ipfs_cid : Text → Call
  send_post_request : Text → Text → Call
  update_ht_cid : Text → Text → Call

-- `util::write_to_ipfs` for the two types that are written.
pub record Ipfs : Type 0 where
  pub write_data : DataMap → Option Text
  pub write_table : SimpleHashTable → Option Text

-- The pin on this node, and at the application's pinning server.
unfoldable pub pin : Text → Text → IpfsManager → List Call
pin did cid m = elim (Dict.lookup did m.pinning_servers) [
  | some server ↦ pin_ipfs_cid cid ∷ send_post_request server.0 cid ∷ []
  | none ↦ pin_ipfs_cid cid ∷ []
]

abbrev pub simple_table : HashTable → SimpleHashTable
simple_table = map (λ e. (e.0, to_simple e.1))

module _ (ipfs : Ipfs) (did : Text) (m : IpfsManager) where
  -- One turn of the loop over the owners: `app_data` is the table read before the loop.
  unfoldable pub upload_entry : HashTable → Text → HashTableData → DbState → DbState × List Call
  unfolding pin
  upload_entry app_data owner_did ht_data s =
      if is_empty ht_data.contents then (s, []) else (elim (ipfs.write_data ht_data.contents) [
        | some cid ↦
            if not (cid == ht_data.cid)
            then (
              add_application did (Dict.insert owner_did (record ht_data { cid = cid }) app_data) s,
              pin did cid m,
            )
            else (s, [])
        | none ↦ (s, [])
      ])

  unfoldable pub upload_entries : HashTable → HashTable → DbState → DbState × List Call
  unfolding upload_entry
  upload_entries app_data [] s = (s, [])
  upload_entries app_data ((owner_did, ht_data) ∷ rest) s =
      let (s', calls) = upload_entry app_data owner_did ht_data s in
      let (s'', more) = upload_entries app_data rest s' in (s'', calls ++ more)

  -- The table of content ids, if it is new.
  unfoldable pub publish_table : HashTable → IpfsManager × List Call
  unfolding pin
  publish_table app_data =
      if is_empty app_data then (m, []) else (elim (ipfs.write_table (simple_table app_data)) [
        | some app_ht_cid ↦
            if not (app_ht_cid == unwrap_or (Dict.lookup did m.cids) [])
            then (
              record m { cids = Dict.insert did app_ht_cid m.cids },
              update_ht_cid did app_ht_cid ∷ pin did app_ht_cid m,
            )
            else (m, [])
        | none ↦ (m, [])
      ])

abbrev pub app_table : Text → DbState → HashTable
app_table did s = unwrap_or (get_application_data did s) []

unfoldable pub update_data_image :
    Ipfs → Text → DbState → IpfsManager → DbState × (IpfsManager × List Call)
unfolding upload_entries publish_table
update_data_image ipfs did s m =
    if unwrap_or (Dict.lookup did m.modified) false
    then (let (s', calls) = upload_entries ipfs did m (app_table did s) (app_table did s) s in
        let (m', more) =
          (if is_empty (app_table did s)
            then (m, [])
            else publish_table ipfs did m (app_table did s')) in
        (s', (record m' { modified = Dict.insert did false m'.modified }, calls ++ more)))
    else (s, (m, []))
