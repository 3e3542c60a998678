-- ===== src/Database/Set/Lost.antt =====
-- What is left of two overlapping calls of `set_db_value`.
use samaritan_db.Prelude.{
  ℕ, refl, true, Option, some, arith, unwrap_or, is_some, ◌+◌, ◌≡◌, ◌∙◌, ◌∷◌, if◌then◌else◌,
}
use samaritan_db.Text.{Text}
use samaritan_db.Dict.{Dict}
use samaritan_db.Network.Requests.{answers}
use samaritan_db.Database.DataMap.{written}
use samaritan_db.Dict
use samaritan_db.Database.Set.Overlap.{end_set, begin_set, overlapped}
use samaritan_db.Database.Set.Effect.{written_entry, stored-units}
use samaritan_db.Database.Reply.{ok, bake_response, empty}
use samaritan_db.Database.World.{gossip_write_data, set_network_sync_flag, World}
use samaritan_db.Database.View.{table_of, entry_of, same_place, unit_of}
use samaritan_db.Database.State.{HashTable, DbState}

-- The table that a call saves.
abbrev written_table : Text → Text → Text → Text → ℕ → DbState → HashTable
written_table did owner key value now s =
    Dict.insert owner (written_entry owner key value now (entry_of did owner s)) (table_of did s)

-- Both calls in closed form.
overlapped_lem :
    (did : Text) (a b : Option Text) (key_a value_a key_b value_b : Text) (w : World)
    → is_some (Dict.lookup did w.state.applications) ≡ true
    → w.initialization_complete ≡ true
    → let owner_a = unwrap_or a did in
      let owner_b = unwrap_or b did in
      let table_a = written_table did owner_a key_a value_a (w.clock (w.readings + 1)) w.state in
      let table_b =
        written_table did owner_b key_b value_b (w.clock (w.readings + 1 + 1 + 1)) w.state in
      overlapped did a key_a value_a b key_b value_b w ≡ (
        (ok (bake_response empty), ok (bake_response empty)),
        record w {
          state = record w.state {
            applications = Dict.insert did table_b (Dict.insert did table_a w.state.applications);
          };
          sent =
              gossip_write_data did key_b value_b owner_b (w.clock (w.readings + 1 + 1))
              ∷ set_network_sync_flag did
              ∷ gossip_write_data did key_a value_a owner_a (w.clock w.readings)
              ∷ set_network_sync_flag did
              ∷ w.sent;
          readings = w.readings + 1 + 1 + 1 + 1;
        },
      )
unfolding overlapped begin_set end_set
overlapped_lem did a b key_a value_a key_b value_b w known complete = ground arith

-- Of two tables saved for one application, a client sees the later.
unit_of-saved_twice :
    (did d o k : Text) (later earlier : HashTable) (s : DbState)
    → unit_of d o k
        (record s { applications = Dict.insert did later (Dict.insert did earlier s.applications) })
      ≡ unit_of d o k (record s { applications = Dict.insert did later s.applications })
unit_of-saved_twice did d o k later earlier s = ground (
  arith,
  Dict.lookup-insert d did later (Dict.insert did earlier s.applications),
  Dict.lookup-insert d did earlier s.applications,
  Dict.lookup-insert d did later s.applications,
)

-- Of two calls of set_db_value for one loaded application, after the initialization, that both read
-- the table before either saves it, both report success and both are announced to the peers; but a
-- client finds the value of the later one in its place, and every other place as it was before both,
-- the place of the earlier one too.
pub overlapped_loses :
    (did : Text) (a b : Option Text) (key_a value_a key_b value_b : Text) (w : World)
    → is_some (Dict.lookup did w.state.applications) ≡ true
    → w.initialization_complete ≡ true
    → let owner_a = unwrap_or a did in
      let owner_b = unwrap_or b did in
      let (answers, w') = overlapped did a key_a value_a b key_b value_b w in
      (answers ≡ (ok (bake_response empty), ok (bake_response empty)))
      × (w'.sent
          ≡ gossip_write_data did key_b value_b owner_b (w.clock (w.readings + 1 + 1))
            ∷ set_network_sync_flag did
            ∷ gossip_write_data did key_a value_a owner_a (w.clock w.readings)
            ∷ set_network_sync_flag did
            ∷ w.sent)
      × ((d o k : Text)
          → unit_of d o k w'.state ≡ (
              if same_place did owner_b key_b d o k
              then some (written value_b (w.clock (w.readings + 1 + 1 + 1)))
              else unit_of d o k w.state))
overlapped_loses did a b key_a value_a key_b value_b w known complete =
    rw (overlapped_lem did a b key_a value_a key_b value_b w known complete) (
      refl,
      refl,
      λ d o k.
          unit_of-saved_twice did d o k _ _ w.state
          ∙ stored-units did (unwrap_or b did) key_b value_b d o k
              (w.clock (w.readings + 1 + 1 + 1)) w.state,
    )
