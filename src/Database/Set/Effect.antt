-- ===== src/Database/Set/Effect.antt =====
-- What `set_db_value` does to the state, seen by its clients.
use samaritan_db.Prelude.{
  ℕ, refl, true, false, Option, none, some, arith, unwrap_or, is_some, [], ◌+◌, ◌≡◌, ◌∙◌, ◌∷◌,
  if◌then◌else◌,
}
use samaritan_db.Text.{Text, eq_iff, ◌==◌}
use samaritan_db.Dict.{Dict}
use samaritan_db.Database.Reply.{ok, empty, bake_response, initialization_error, bake_error, err}
use samaritan_db.Dict
use samaritan_db.Database.State.{HashTableData, DbState}
use samaritan_db.Database.DataMap
use samaritan_db.Database.DataMap.{written}
use samaritan_db.Database.Set.{fresh_entry, set_db_value}
use samaritan_db.Database.View.{
  table_of, entry_of, unit_of, access_of, same_place, unit_in, entry_of-save,
}
use samaritan_db.Database.World.{World, set_network_sync_flag, gossip_write_data}

-- The entry that the write makes.
abbrev pub written_entry : Text → Text → Text → ℕ → Option HashTableData → HashTableData
written_entry owner key value now none = fresh_entry owner key value now
written_entry owner key value now (some e) = record e {
  contents = DataMap.insert key value now e.contents;
}

-- The state with the owner's entry replaced by the written one.
abbrev pub stored : Text → Text → Text → Text → ℕ → DbState → DbState
stored did owner key value now s =
    let entry = written_entry owner key value now (entry_of did owner s) in
    record s {
      applications = Dict.insert did (Dict.insert owner entry (table_of did s)) s.applications;
    }

set_db_value_lem :
    (did : Text) (sam_did : Option Text) (key value : Text) (w : World)
    → is_some (Dict.lookup did w.state.applications) ≡ true
    → w.initialization_complete ≡ true
    → let owner = unwrap_or sam_did did in
      set_db_value did sam_did key value w ≡ (
        ok (bake_response empty),
        record w {
          state = stored did owner key value (w.clock (w.readings + 1)) w.state;
          sent =
              gossip_write_data did key value owner (w.clock w.readings)
              ∷ set_network_sync_flag did
              ∷ w.sent;
          readings = w.readings + 1 + 1;
        },
      )
unfolding set_db_value
set_db_value_lem did sam_did key value w known complete = ground arith

unit_in-written_entry :
    (owner key value k : Text) (now : ℕ) (e : Option HashTableData)
    → unit_in k (some (written_entry owner key value now e))
      ≡ (if key == k then some (written value now) else unit_in k e)
unit_in-written_entry owner key value k now none =
    Dict.lookup-insert k key (written value now) [] ∙ unfold Dict.lookup in refl
unit_in-written_entry owner key value k now (some e) =
    DataMap.lookup-insert k key value now e.contents

-- What has become of the world after a write that went to memory.
pub record Stores (did owner key value : Text) (w w' : World) : Type 0 where
  -- The place holds the value, with the time of the second reading of the clock; no other place
  -- has changed.
  pub units :
      (d o k : Text)
      → unit_of d o k w'.state ≡ (
          if same_place did owner key d o k
          then some (written value (w.clock (w.readings + 1)))
          else unit_of d o k w.state)
  -- No owner's permission has changed.
  pub access : (d o : Text) → access_of d o w'.state ≡ access_of d o w.state
  -- The cache and the secrets are as before.
  pub cache : w'.state.cache ≡ w.state.cache
  pub authenticated : w'.state.authenticated ≡ w.state.authenticated
  -- The write is announced with the time of the first reading.
  pub sent :
      w'.sent
      ≡ gossip_write_data did key value owner (w.clock w.readings)
        ∷ set_network_sync_flag did
        ∷ w.sent

pub stored-units :
    (did owner key value d o k : Text) (now : ℕ) (s : DbState)
    → unit_of d o k (stored did owner key value now s)
      ≡ (if same_place did owner key d o k then some (written value now) else unit_of d o k s)
stored-units did owner key value d o k now s =
    let entry = written_entry owner key value now (entry_of did owner s) in
    rw (entry_of-save did owner d o entry s) (
      ground (
        arith,
        eq_iff did d,
        eq_iff owner o,
        unit_in-written_entry owner key value k now (entry_of did owner s),
      ))

stored-access :
    (did owner key value d o : Text) (now : ℕ) (s : DbState)
    → access_of d o (stored did owner key value now s) ≡ access_of d o s
stored-access did owner key value d o now s =
    let entry = written_entry owner key value now (entry_of did owner s) in
    rw (entry_of-save did owner d o entry s) (ground (arith, eq_iff did d, eq_iff owner o))

-- Once the initialization is over, a write for an initialized application succeeds, puts the value
-- in its place, and changes nothing else that a client can see; peers are told.
pub set_db_value-Stores :
    (did : Text) (sam_did : Option Text) (key value : Text) (w : World)
    → is_some (Dict.lookup did w.state.applications) ≡ true
    → w.initialization_complete ≡ true
    → let (r, w') = set_db_value did sam_did key value w in
      (r ≡ ok (bake_response empty)) × Stores did (unwrap_or sam_did did) key value w w'
set_db_value-Stores did sam_did key value w known complete =
    rw (set_db_value_lem did sam_did key value w known complete) (
      refl,
      record {
        units = λ d o k. stored-units did owner key value d o k (w.clock (w.readings + 1)) w.state;
        access = λ d o. stored-access did owner key value d o (w.clock (w.readings + 1)) w.state;
        cache = refl;
        authenticated = refl;
        sent = refl;
      },
    )
  where
    owner : Text
    owner = unwrap_or sam_did did

-- A write for an application that is not initialized is refused and changes nothing.
pub set_db_value_uninitialized :
    (did : Text) (sam_did : Option Text) (key value : Text) (w : World)
    → is_some (Dict.lookup did w.state.applications) ≡ false
    → set_db_value did sam_did key value w ≡ (err (bake_error initialization_error), w)
unfolding set_db_value
set_db_value_uninitialized did sam_did key value w unknown = rw unknown
