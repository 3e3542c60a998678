-- ===== src/Database/Gossip/Entries.antt =====
-- The entries of the state after a gossiped message, for an owner that the node knows.
use samaritan_db.Prelude.{
  ℕ, Bool, false, none, some, arith, ltb, leb, unwrap_or, ◌≡◌, ◌&&◌, if◌then◌else◌,
}
use samaritan_db.Text.{Text, eq_iff, ◌==◌}
use samaritan_db.Dict.{Dict}
use samaritan_db.Database.DataMap
use samaritan_db.Dict
use samaritan_db.Database.Gossip.Effect.{entry_of-or_default, entry_of-replaced_default}
use samaritan_db.Database.World.{World}
use samaritan_db.Database.View.{entry_of, table_of}
use samaritan_db.Database.State.{default_unit, HashTableData}
use samaritan_db.Database.Gossip.{
  apply_gossip, handle_gossiped_data, parse_bool, or_default, WriteDataType,
}

-- What a message numbered `n`, sent at `t`, makes of the world.
abbrev pub gossiped : Text → Text → Text → Text → Text → Text → World → World
gossiped did key value owner write_time write_type w =
    (handle_gossiped_data did key value owner write_time write_type w).1

-- The time of the unit under a key; a key without one counts as written at 0.
abbrev pub time_of : Text → HashTableData → ℕ
time_of key e = (unwrap_or (Dict.lookup key e.contents) default_unit).write_time

-- The world in which the handler applies a message: the application is there.
abbrev pub prepared : Text → World → World
prepared did w = record w { state = or_default did w.state }

module _ (did key value owner : Text) (t : ℕ) (w : World) (e : HashTableData)
    (known : entry_of did owner w.state ≡ some e) where
  pub apply_write :
      (d o : Text)
      → entry_of d o
          (apply_gossip WriteDataType.write did key value owner t
            (table_of did w.state)
            (prepared did w)).1.state
        ≡ (if did == d && owner == o
            then some (
                if ltb (time_of key e) t
                then record e {
                  contents = DataMap.insert key value (w.clock w.readings) e.contents;
                }
                else e)
            else entry_of d o w.state)
  unfolding apply_gossip
  apply_write d o =
      let e' : HashTableData = record e {
        contents = DataMap.insert key value (w.clock w.readings) e.contents;
      } in
      ground (
        arith,
        eq_iff did d,
        eq_iff owner o,
        entry_of-replaced_default did owner e' d o w.state,
        entry_of-or_default did d o w.state,
      )

  pub apply_truncate :
      (d o : Text)
      → entry_of d o
          (apply_gossip WriteDataType.truncate did key value owner t
            (table_of did w.state)
            (prepared did w)).1.state
        ≡ (if did == d && owner == o
            then some (record e { contents = Dict.retain (λ u. leb t u.write_time) e.contents })
            else entry_of d o w.state)
  unfolding apply_gossip
  apply_truncate d o =
      let e' : HashTableData = record e {
        contents = Dict.retain (λ u. leb t u.write_time) e.contents;
      } in
      ground (
        arith,
        eq_iff did d,
        eq_iff owner o,
        entry_of-replaced_default did owner e' d o w.state,
        entry_of-or_default did d o w.state,
      )

  pub apply_access :
      (d o : Text)
      → entry_of d o
          (apply_gossip WriteDataType.access did key value owner t
            (table_of did w.state)
            (prepared did w)).1.state
        ≡ (if did == d && owner == o
            then some (
                if ltb e.access_modification_time t
                then record e {
                  access = unwrap_or (parse_bool key) false;
                  access_modification_time = w.clock w.readings;
                }
                else e)
            else entry_of d o w.state)
  unfolding apply_gossip
  apply_access d o =
      let e' : HashTableData = record e {
        access = unwrap_or (parse_bool key) false;
        access_modification_time = w.clock w.readings;
      } in
      ground (
        arith,
        eq_iff did d,
        eq_iff owner o,
        entry_of-replaced_default did owner e' d o w.state,
        entry_of-or_default did d o w.state,
      )

  -- A deletion takes the unit away if it is older than the message.
  abbrev pub is_older : Bool
  is_older = elim (Dict.lookup key e.contents) [ some u ↦ ltb u.write_time t | none ↦ false ]

  pub apply_delete :
      (d o : Text)
      → entry_of d o
          (apply_gossip WriteDataType.delete did key value owner t
            (table_of did w.state)
            (prepared did w)).1.state
        ≡ (if did == d && owner == o
            then some (if is_older then record e { contents = Dict.remove key e.contents } else e)
            else entry_of d o w.state)
  unfolding apply_gossip
  apply_delete d o =
      let e' : HashTableData = record e { contents = Dict.remove key e.contents } in
      ground (
        arith,
        eq_iff did d,
        eq_iff owner o,
        entry_of-replaced_default did owner e' d o w.state,
        entry_of-or_default did d o w.state,
      )
