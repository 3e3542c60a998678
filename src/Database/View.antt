-- ===== src/Database/View.antt =====
-- The state as its clients see it: for each application, owner and key, an entry and a unit. The
-- representation, its order included, is forgotten.
use samaritan_db.Prelude.{
  Bool, true, Option, none, some, arith, unwrap_or, [], ◌≡◌, ◌&&◌, if◌then◌else◌,
}
use samaritan_db.Text.{Text, eq_iff, ◌==◌}
use samaritan_db.Dict.{Dict}
use samaritan_db.Dict
use samaritan_db.Database.State.{DataUnit, HashTableData, HashTable, DbState}

abbrev pub table_of : Text → DbState → HashTable
table_of did s = unwrap_or (Dict.lookup did s.applications) []

-- The owner's entry in an application.
abbrev pub entry_of : Text → Text → DbState → Option HashTableData
entry_of did owner s = Dict.lookup owner (table_of did s)

abbrev pub unit_in : Text → Option HashTableData → Option DataUnit
unit_in key none = none
unit_in key (some e) = Dict.lookup key e.contents

-- The unit stored under a key of the owner.
abbrev pub unit_of : Text → Text → Text → DbState → Option DataUnit
unit_of did owner key s = unit_in key (entry_of did owner s)

abbrev pub access_in : Option HashTableData → Bool
access_in none = true
access_in (some e) = e.access

-- Whether an owner's data may be read: an owner without an entry has nothing to hide.
abbrev pub access_of : Text → Text → DbState → Bool
access_of did owner s = access_in (entry_of did owner s)

-- The place of one value.
abbrev pub same_place : Text → Text → Text → Text → Text → Text → Bool
same_place did owner key d o k = did == d && (owner == o && key == k)

-- What saving a table with one entry replaced does to the entries.
pub entry_of-save :
    (did owner d o : Text) (e : HashTableData) (s : DbState)
    → Dict.lookup o (
        unwrap_or
          (Dict.lookup d (Dict.insert did (Dict.insert owner e (table_of did s)) s.applications))
          [])
      ≡ (if did == d && owner == o then some e else entry_of d o s)
entry_of-save did owner d o e s = ground (
  arith,
  eq_iff did d,
  Dict.lookup-insert d did (Dict.insert owner e (table_of did s)) s.applications,
  Dict.lookup-insert o owner e (table_of did s),
)

-- The state with one owner's entry replaced.
abbrev pub replaced : Text → Text → HashTableData → DbState → DbState
replaced did owner e s = record s {
  applications = Dict.insert did (Dict.insert owner e (table_of did s)) s.applications;
}

pub unit_of-replaced :
    (did owner : Text) (e : HashTableData) (d o k : Text) (s : DbState)
    → unit_of d o k (replaced did owner e s)
      ≡ (if did == d && owner == o then Dict.lookup k e.contents else unit_of d o k s)
unit_of-replaced did owner e d o k s =
    rw (entry_of-save did owner d o e s) (ground (arith, eq_iff did d))

pub access_of-replaced :
    (did owner : Text) (e : HashTableData) (d o : Text) (s : DbState)
    → access_of d o (replaced did owner e s)
      ≡ (if did == d && owner == o then e.access else access_of d o s)
access_of-replaced did owner e d o s =
    rw (entry_of-save did owner d o e s) (ground (arith, eq_iff did d))
