-- ===== src/Database/Invariant.antt =====
-- What holds of the node's state at all times: no map of it lists a key twice.
pub mod Writes
pub mod Commands
pub mod Loads
use samaritan_db.Contract.Accounts.{authenticated}
use samaritan_db.Prelude.{inl, inr, some, Option-cases, unwrap_or, [], ◌≡◌}
use samaritan_db.Text.{Text}
use samaritan_db.Dict.{Dict, IsMap, Every, Every-lookup, Every-insert, Every-remove, remove-IsMap}
use samaritan_db.Dict
use samaritan_db.Database.DataMap.{insert-IsMap}
use samaritan_db.Database.View.{entry_of, table_of, replaced}
use samaritan_db.Database.State.{HashTableData, TempCache, HashTable, DbState, remove_application}

-- An application's table, and the data of each of its owners, are maps.
abbrev pub IsTable : HashTable → Type 0
IsTable t = IsMap t × Every (λ e. IsMap e.contents) t

pub record IsWellFormed (s : DbState) : Type 0 where
  pub applications : IsMap s.applications
  pub tables : Every IsTable s.applications
  pub caches : IsMap s.cache
  pub entries : Every IsMap s.cache
  pub secrets : IsMap s.authenticated

pub unwrap_or-IsTable :
    (did : Text) (s : DbState)
    → IsWellFormed s
    → IsTable (unwrap_or (Dict.lookup did s.applications) [])
unwrap_or-IsTable did s h = elim (Option-cases (Dict.lookup did s.applications)) [
  | inl missing ↦ rw missing (tt, tt)
  | inr (t, there) ↦ rw there (Every-lookup IsTable did s.applications h.tables there)
]

pub entry-IsMap :
    (owner : Text) (t : HashTable) (e : HashTableData)
    → IsTable t
    → Dict.lookup owner t ≡ some e
    → IsMap e.contents
entry-IsMap owner t e h there = Every-lookup (λ i. IsMap i.contents) owner t h.1 there

pub insert-IsTable :
    (owner : Text) (e : HashTableData) (t : HashTable)
    → IsMap e.contents
    → IsTable t
    → IsTable (Dict.insert owner e t)
insert-IsTable owner e t p h =
    (Dict.insert-IsMap owner e t h.0, Every-insert (λ i. IsMap i.contents) owner e t p h.1)

pub saved-IsWellFormed :
    (did : Text) (t : HashTable) (s : DbState)
    → IsTable t
    → IsWellFormed s
    → IsWellFormed (record s { applications = Dict.insert did t s.applications })
saved-IsWellFormed did t s p h = record {
  applications = Dict.insert-IsMap did t s.applications h.applications;
  tables = Every-insert IsTable did t s.applications p h.tables;
  caches = h.caches;
  entries = h.entries;
  secrets = h.secrets;
}

-- The state with an owner's entry replaced, as every command saves it.
pub replaced-IsWellFormed :
    (did owner : Text) (e : HashTableData) (s : DbState)
    → IsMap e.contents
    → IsWellFormed s
    → IsWellFormed (replaced did owner e s)
replaced-IsWellFormed did owner e s p h =
    saved-IsWellFormed did (Dict.insert owner e (table_of did s)) s
      (insert-IsTable owner e (table_of did s) p (unwrap_or-IsTable did s h)) h

pub contents-IsMap :
    (owner : Text) (s : DbState) (did : Text) (e : HashTableData)
    → IsWellFormed s
    → entry_of did owner s ≡ some e
    → IsMap e.contents
contents-IsMap owner s did e h there =
    entry-IsMap owner (table_of did s) e (unwrap_or-IsTable did s h) there

pub cached-IsWellFormed :
    (did : Text) (c : TempCache) (s : DbState)
    → IsMap c
    → IsWellFormed s
    → IsWellFormed (record s { cache = Dict.insert did c s.cache })
cached-IsWellFormed did c s p h = record {
  applications = h.applications;
  tables = h.tables;
  caches = Dict.insert-IsMap did c s.cache h.caches;
  entries = Every-insert IsMap did c s.cache p h.entries;
  secrets = h.secrets;
}

pub cache-IsMap :
    (did : Text) (s : DbState) → IsWellFormed s → IsMap (unwrap_or (Dict.lookup did s.cache) [])
cache-IsMap did s h = elim (Option-cases (Dict.lookup did s.cache)) [
  | inl missing ↦ rw missing tt
  | inr (c, there) ↦ rw there (Every-lookup IsMap did s.cache h.entries there)
]

pub secret-IsWellFormed :
    (did auth : Text) (s : DbState)
    → IsWellFormed s
    → IsWellFormed (record s { authenticated = Dict.insert did auth s.authenticated })
secret-IsWellFormed did auth s h = record {
  applications = h.applications;
  tables = h.tables;
  caches = h.caches;
  entries = h.entries;
  secrets = Dict.insert-IsMap did auth s.authenticated h.secrets;
}

pub removed-IsWellFormed :
    (did : Text) (s : DbState) → IsWellFormed s → IsWellFormed (remove_application did s)
removed-IsWellFormed did s h = record {
  applications = Dict.remove-IsMap did s.applications h.applications;
  tables = Every-remove IsTable did s.applications h.tables;
  caches = h.caches;
  entries = h.entries;
  secrets = h.secrets;
}

pub uncached-IsWellFormed : (s : DbState) → IsWellFormed s → IsWellFormed (record s { cache = [] })
uncached-IsWellFormed s h = record {
  applications = h.applications;
  tables = h.tables;
  caches = tt;
  entries = tt;
  secrets = h.secrets;
}
