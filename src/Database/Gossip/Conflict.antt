-- ===== src/Database/Gossip/Conflict.antt =====
-- Where gossiped writes lose data.
use samaritan_db.Prelude.{ℕ, ap, none, some, arith, [], ◌≤◌, ◌<◌, ◌≡◌, ◌∙◌, ◌&&◌, if◌then◌else◌}
use samaritan_db.Text.{Text, eq_refl, ◌==◌}
use samaritan_db.Dict.{Dict}
use samaritan_db.Database.DataMap
use samaritan_db.Dict
use samaritan_db.Database.Gossip.Entries.{gossiped, apply_write, prepared}
use samaritan_db.Database.Gossip.Effect.{handle_gossiped_data_lem}
use samaritan_db.Database.Gossip.Units.{written_at, gossiped_write_units, IsReadable}
use samaritan_db.Database.Set.{fresh_entry}
use samaritan_db.Database.World.{World}
use samaritan_db.Database.View.{entry_of, table_of, unit_of}
use samaritan_db.Database.State.{HashTableData}
use samaritan_db.Database.Gossip.{WriteDataType, or_default, apply_gossip, write_data_type}

-- A write for an owner that the node does not know yet leaves, of everything that the application
-- had stored for anyone, only the written value; the time of the message plays no part.
pub gossiped_write_erases :
    (did key value owner write_time write_type : Text) (t : ℕ) (w : World)
    → entry_of did owner w.state ≡ none
    → IsReadable write_time write_type t 3
    → (o k : Text)
    → unit_of did o k (gossiped did key value owner write_time write_type w).state
      ≡ (if owner == o && key == k then some (DataMap.written value (w.clock w.readings)) else none)
unfolding write_data_type
gossiped_write_erases did key value owner write_time write_type t w missing m o k =
    ap (λ r. unit_of did o k r.1.state)
      (handle_gossiped_data_lem did key value owner write_time write_type t 3 w m.0 m.1)
    ∙ applied
  where
    entry : HashTableData
    entry = fresh_entry owner key value (w.clock w.readings)

    applied :
        unit_of did o k
          (apply_gossip WriteDataType.write did key value owner t
            (table_of did w.state)
            (prepared did w)).1.state
        ≡ (if owner == o && key == k
            then some (DataMap.written value (w.clock w.readings))
            else none)
    applied =
        unfold apply_gossip Dict.lookup in
        ground (
          arith,
          eq_refl did,
          Dict.lookup-insert did did (Dict.insert owner entry [])
              (or_default did w.state).applications,
          Dict.lookup-insert o owner entry [],
          Dict.lookup-insert k key (DataMap.written value (w.clock w.readings)) [],
        )

-- A write that is taken is stored with the time of this node's clock. A later write to the same
-- place, whose time is not past that reading, is then ignored: the older value stays.
pub gossiped_newer_ignored :
    (did key owner v1 time1 v2 time2 write_type : Text) (t1 t2 : ℕ) (w : World) (e : HashTableData)
    → entry_of did owner w.state ≡ some e
    → IsReadable time1 write_type t1 3
    → IsReadable time2 write_type t2 3
    → written_at (unit_of did owner key w.state) < t1
    → t1 < t2
    → t2 ≤ w.clock w.readings
    → let w1 = gossiped did key v1 owner time1 write_type w in
      unit_of did owner key (gossiped did key v2 owner time2 write_type w1).state
      ≡ some (DataMap.written v1 (w.clock w.readings))
gossiped_newer_ignored did key owner v1 time1 v2 time2 write_type t1 t2 w e known m1 m2 new1 later
      past =
    (gossiped_write_units did key v2 owner time2 write_type t2 w1 e1 known1 m2).0 did owner key
    ∙ ground (arith, first, eq_refl did, eq_refl owner, eq_refl key)
  where
    w1 : World
    w1 = gossiped did key v1 owner time1 write_type w

    first : unit_of did owner key w1.state ≡ some (DataMap.written v1 (w.clock w.readings))
    first =
        (gossiped_write_units did key v1 owner time1 write_type t1 w e known m1).0 did owner key
        ∙ ground (arith, eq_refl did, eq_refl owner, eq_refl key)

    e1 : HashTableData
    e1 = record e { contents = DataMap.insert key v1 (w.clock w.readings) e.contents }

    known1 : entry_of did owner w1.state ≡ some e1
    known1 =
        unfold write_data_type in
        ap (λ r. entry_of did owner r.1.state)
          (handle_gossiped_data_lem did key v1 owner time1 write_type t1 3 w m1.0 m1.1)
        ∙ apply_write did key v1 owner t1 w e known did owner
        ∙ ground (arith, eq_refl did, eq_refl owner)
