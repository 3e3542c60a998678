-- ===== src/Database/Gossip.antt =====
-- `handle_gossiped_data` of database/src/prelude.rs, and `WriteDataType` of database/src/network.rs.
pub mod Effect
pub mod Entries
pub mod Units
pub mod Conflict
use samaritan_db.Prelude.{
  ℕ, Bool, true, false, Option, none, some, ltb, leb, num_eq, unwrap_or, is_some, [], if◌then◌else◌,
}
use samaritan_db.Text.{Text, codes, ◌==◌}
use samaritan_db.Dict.{Dict}
use samaritan_db.Database.DataMap
use samaritan_db.Dict
use samaritan_db.Text.Number.{u8_limit, u64_limit, parse_uint}
use samaritan_db.Database.Set.{fresh_entry}
use samaritan_db.Database.World.{
  gets, pure, modify, save_application, M, current_unix_epoch, ◌>>=◌, ◌>>◌,
}
use samaritan_db.Database.State.{DataUnit, default_unit, DbState, HashTableData, HashTable, DataMap}

pub data WriteDataType : Type 0 where
  access delete truncate write unknown : WriteDataType

-- The kind of message that a number stands for.
unfoldable pub write_data_type : ℕ → WriteDataType
write_data_type n =
    if num_eq n 0
    then access
    else (if num_eq n 1
        then delete
        else (if num_eq n 2 then truncate else (if num_eq n 3 then write else unknown)))

-- `str::parse::<bool>`
unfoldable pub parse_bool : Text → Option Bool
parse_bool s =
    if s == codes "true" then some true else (if s == codes "false" then some false else none)

-- How the handler ends: `todo!()` panics.
pub data Ended : Type 0 where
  finished panicked : Ended

-- `applications.entry(did).or_default()`: the application is there afterwards.
unfoldable pub or_default : Text → DbState → DbState
or_default did s =
    if is_some (Dict.lookup did s.applications)
    then s
    else record s { applications = Dict.insert did [] s.applications }

unfoldable pub gossiped_access : Text → Text → Text → ℕ → HashTable → M (Unit {0})
unfolding parse_bool
gossiped_access did perm owner_did write_time app_data = elim (Dict.lookup owner_did app_data) [
  | some hashtable ↦
      if ltb hashtable.access_modification_time write_time
      then (do
        now ← current_unix_epoch
        let entry : HashTableData = record hashtable {
          access = unwrap_or (parse_bool perm) false;
          access_modification_time = now;
        }
        save_application did (Dict.insert owner_did entry app_data))
      else pure tt
  | none ↦ pure tt
]

-- The branch for an owner without an entry: the table saved holds the new entry alone.
unfoldable pub gossiped_first : Text → Text → Text → Text → M (Unit {0})
gossiped_first did key value owner_did = do
  now ← current_unix_epoch
  save_application did (Dict.insert owner_did (fresh_entry owner_did key value now) [])

unfoldable pub gossiped_write : Text → Text → Text → Text → ℕ → HashTable → M (Unit {0})
unfolding gossiped_first
gossiped_write did key value owner_did write_time app_data = elim (Dict.lookup owner_did app_data) [
  | some hashtable ↦
      let data_unit : DataUnit = unwrap_or (Dict.lookup key hashtable.contents) default_unit in
      if ltb data_unit.write_time write_time
      then (do
        now ← current_unix_epoch
        let htable : HashTableData = record hashtable {
          contents = DataMap.insert key value now hashtable.contents;
        }
        save_application did (Dict.insert owner_did htable app_data))
      else pure tt
  | none ↦ gossiped_first did key value owner_did
]

unfoldable pub gossiped_delete : Text → Text → Text → ℕ → HashTable → M (Unit {0})
gossiped_delete did key owner_did write_time app_data = elim (Dict.lookup owner_did app_data) [
  | some hashtable ↦ elim (Dict.lookup key hashtable.contents) [
    | some data_unit ↦
        if ltb data_unit.write_time write_time
        then (let htable : HashTableData = record hashtable {
          contents = Dict.remove key hashtable.contents;
        } in
            save_application did (Dict.insert owner_did htable app_data))
        else pure tt
    | none ↦ pure tt
  ]
  | none ↦ pure tt
]

unfoldable pub gossiped_truncate : Text → Text → ℕ → HashTable → M (Unit {0})
gossiped_truncate did owner_did write_time app_data = elim (Dict.lookup owner_did app_data) [
  | some hashtable ↦
      let htable : HashTableData = record hashtable {
        contents =
            Dict.retain (λ data_unit. leb write_time data_unit.write_time) hashtable.contents;
      } in
      save_application did (Dict.insert owner_did htable app_data)
  | none ↦ pure tt
]

-- The handler behind the parsing of its numbers.
unfoldable pub apply_gossip : WriteDataType → Text → Text → Text → Text → ℕ → HashTable → M Ended
unfolding gossiped_access gossiped_write gossiped_delete gossiped_truncate
apply_gossip access did key value owner_did time app_data =
    gossiped_access did key owner_did time app_data >> pure finished
apply_gossip write did key value owner_did time app_data =
    gossiped_write did key value owner_did time app_data >> pure finished
apply_gossip delete did key value owner_did time app_data =
    gossiped_delete did key owner_did time app_data >> pure finished
apply_gossip truncate did key value owner_did time app_data =
    gossiped_truncate did owner_did time app_data >> pure finished
apply_gossip unknown did key value owner_did time app_data = pure panicked

-- A number of the message that cannot be read counts as 0.
unfoldable pub handle_gossiped_data : Text → Text → Text → Text → Text → Text → M Ended
handle_gossiped_data did key value owner_did write_time write_type = do
  let kind = write_data_type (unwrap_or (parse_uint u8_limit write_type) 0)
  let time = unwrap_or (parse_uint u64_limit write_time) 0
  modify (or_default did)
  app_data ← gets (λ s. unwrap_or (Dict.lookup did s.applications) [])
  apply_gossip kind did key value owner_did time app_data
