-- ===== src/Database/State.antt =====
-- The data of database/src/prelude.rs: data units, hash table entries, the cache, the state of the
-- database, and the methods of these types.
use samaritan_db.Prelude.{ℕ, Bool, false, Option, is_some, []}
use samaritan_db.Text.{Text}
use samaritan_db.Dict.{Dict}
use samaritan_db.Dict

-- A single unit of data. `write_time` is in seconds since the epoch.
pub record DataUnit : Type 0 where
  pub contents : Text
  pub access : Bool
  pub write_time : ℕ

abbrev pub default_unit : DataUnit
default_unit = record { contents = []; access = false; write_time = 0 }

abbrev pub DataMap : Type 0
DataMap = Dict DataUnit

pub record CacheData : Type 0 where
  pub sam_did : Option Text
  pub value : Text
  pub write_time : ℕ

-- A `TempCache` is its one field, the map from keys to data.
abbrev pub TempCache : Type 0
TempCache = Dict CacheData

pub record HashTableData : Type 0 where
  pub did : Text
  pub cid : Text
  pub access : Bool
  pub contents : DataMap
  pub access_modification_time : ℕ

abbrev pub HashTable : Type 0
HashTable = Dict HashTableData

pub record SimpleHashTableData : Type 0 where
  pub cid : Text
  pub access : Bool

abbrev pub SimpleHashTable : Type 0
SimpleHashTable = Dict SimpleHashTableData

pub record DbState : Type 0 where
  pub applications : Dict HashTable
  pub cache : Dict TempCache
  pub authenticated : Dict Text

abbrev pub new_state : DbState
new_state = record { applications = []; cache = []; authenticated = [] }

-- `TempCache::insert_data`
unfoldable pub insert_data : Option Text → Text → Text → ℕ → TempCache → TempCache
insert_data sam_did key value write_time entries =
    Dict.insert key (record { sam_did = sam_did; value = value; write_time = write_time }) entries

-- The conversions between the two kinds of hash table data.
unfoldable pub to_simple : HashTableData → SimpleHashTableData
to_simple e = record { cid = e.cid; access = e.access }

unfoldable pub from_simple : SimpleHashTableData → HashTableData
from_simple e = record {
  did = [];
  cid = e.cid;
  access = e.access;
  contents = [];
  access_modification_time = 0;
}

-- `HashTableData::set_data`
abbrev pub set_data : DataMap → HashTableData → HashTableData
set_data m e = record e { contents = m }

-- The methods of `DbState`.
abbrev pub add_application : Text → HashTable → DbState → DbState
add_application did table s = record s { applications = Dict.insert did table s.applications }

abbrev pub remove_application : Text → DbState → DbState
remove_application did s = record s { applications = Dict.remove did s.applications }

abbrev pub is_application_init : Text → DbState → Bool
is_application_init did s = is_some (Dict.lookup did s.applications)

abbrev pub get_application_data : Text → DbState → Option HashTable
get_application_data did s = Dict.lookup did s.applications
