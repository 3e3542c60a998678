-- ===== src/Tests/Gossip.antt =====
-- Gossiped messages at concrete worlds.
use samaritan_db.Prelude.{refl, none, some, arith, ltb, [], ◌≡◌, ◌&&◌, if◌then◌else◌}
use samaritan_db.Text.{Text, codes, ◌==◌}
use samaritan_db.Dict.{Dict}
use samaritan_db.Database.DataMap.{written}
use samaritan_db.Database.DataMap
use samaritan_db.Dict
use samaritan_db.Text.Number.{parse_uint}
use samaritan_db.Database.Gossip.Entries.{gossiped}
use samaritan_db.Database.Gossip.Conflict.{gossiped_newer_ignored, gossiped_write_erases}
use samaritan_db.Database.Gossip.Units.{
  gossiped_write_units, gossiped_delete_units, gossiped_truncate_units, KeepsRest,
}
use samaritan_db.Database.View.{unit_of, same_place}
use samaritan_db.Database.Gossip.{
  panicked, write_data_type, apply_gossip, or_default, handle_gossiped_data,
}
use samaritan_db.Tests.Data.{fresh, app, sam, sam_entry, name, node, eve, old, node_state}

gossiped_write_units_example :
    let w' = gossiped app name fresh sam (codes "60") (codes "3") node in
    ((d o k : Text)
      → unit_of d o k w'.state ≡ (
          if same_place app sam name d o k && ltb 50 60
          then some (written fresh 100)
          else unit_of d o k node_state))
    × KeepsRest node w'
unfolding Dict.lookup ◌==◌ parse_uint
gossiped_write_units_example =
    gossiped_write_units app name fresh sam (codes "60") (codes "3") 60 node sam_entry refl
      (refl, refl)

gossiped_delete_units_example :
    let w' = gossiped app name [] sam (codes "60") (codes "1") node in
    ((d o k : Text)
      → unit_of d o k w'.state
        ≡ (if same_place app sam name d o k && ltb 50 60 then none else unit_of d o k node_state))
    × KeepsRest node w'
unfolding Dict.lookup ◌==◌ parse_uint
gossiped_delete_units_example =
    gossiped_delete_units app name [] sam (codes "60") (codes "1") 60 node sam_entry refl
      (refl, refl)

gossiped_truncate_units_example :
    unit_of app sam name (gossiped app [] [] sam (codes "60") (codes "2") node).state ≡ none
unfolding Dict.lookup ◌==◌ parse_uint
gossiped_truncate_units_example =
    gossiped_truncate_units app [] [] sam (codes "60") (codes "2") 60 node sam_entry refl (refl, tt)
      (refl, refl) app sam name

gossiped_write_erases_example :
    unit_of app sam name (gossiped app name fresh eve (codes "60") (codes "3") node).state ≡ none
unfolding Dict.lookup ◌==◌ parse_uint
gossiped_write_erases_example =
    gossiped_write_erases app name fresh eve (codes "60") (codes "3") 60 node refl (refl, refl) sam
      name

gossiped_newer_ignored_example :
    let w1 = gossiped app name old sam (codes "60") (codes "3") node in
    unit_of app sam name (gossiped app name fresh sam (codes "70") (codes "3") w1).state
    ≡ some (DataMap.written old 100)
unfolding Dict.lookup ◌==◌ parse_uint
gossiped_newer_ignored_example =
    gossiped_newer_ignored app name sam old (codes "60") fresh (codes "70") (codes "3") 60 70 node
      sam_entry refl (refl, refl) (refl, refl) (omega arith) (omega arith) (omega arith)

-- A message of an unknown kind ends the handler in a panic.
gossiped_panic :
    (handle_gossiped_data app name fresh sam (codes "60") (codes "9") node).0 ≡ panicked
unfolding handle_gossiped_data apply_gossip write_data_type or_default Dict.lookup ◌==◌ parse_uint
gossiped_panic = refl
