-- ===== src/Database/Gossip/Units.antt =====
-- What clients see after a gossiped message about an owner that the node knows. The message's time
-- is compared with the stored one; what is stored gets the node's own time.
use samaritan_db.Prelude.{
  ℕ, ap, false, Option, none, some, arith, ltb, leb, unwrap_or, [], ◌≡◌, ◌∙◌, ◌&&◌, if◌then◌else◌,
}
use samaritan_db.Text.{Text, eq_iff, ◌==◌}
use samaritan_db.Dict.{Dict, IsMap, keep}
use samaritan_db.Database.DataMap
use samaritan_db.Dict
use samaritan_db.Text.Number.{parse_uint, u64_limit, u8_limit}
use samaritan_db.Database.Del.Truncate.{same_space}
use samaritan_db.Database.Gossip.Entries.{
  gossiped, apply_truncate, apply_write, apply_access, apply_delete,
}
use samaritan_db.Database.Gossip.Effect.{handle_gossiped_data_lem}
use samaritan_db.Database.World.{World}
use samaritan_db.Database.View.{unit_of, access_in, same_place, entry_of, unit_in, access_of}
use samaritan_db.Database.State.{DataUnit, HashTableData}
use samaritan_db.Database.Gossip.{
  parse_bool, write_data_type, or_default, apply_gossip, handle_gossiped_data,
}

-- A readable message: its time and its kind.
abbrev pub IsReadable : Text → Text → ℕ → ℕ → Type 0
IsReadable write_time write_type t n =
    (parse_uint u64_limit write_time ≡ some t) × (parse_uint u8_limit write_type ≡ some n)

-- When the unit was written; where there is none, 0.
abbrev pub written_at : Option DataUnit → ℕ
written_at none = 0
written_at (some u) = u.write_time

-- An entry without its units.
abbrev pub header_of : Option HashTableData → Option HashTableData
header_of none = none
header_of (some e) = some (record e { contents = [] })

-- What a message about units leaves alone: the entries but for their units, the cache, the secrets,
-- the flag of the initialization, and the messages to the network.
pub record KeepsRest (w w' : World) : Type 0 where
  pub headers : (d o : Text) → header_of (entry_of d o w'.state) ≡ header_of (entry_of d o w.state)
  pub cache : w'.state.cache ≡ w.state.cache
  pub authenticated : w'.state.authenticated ≡ w.state.authenticated
  pub initialization_complete : w'.initialization_complete ≡ w.initialization_complete
  pub sent : w'.sent ≡ w.sent

handle_gossiped_data-KeepsRest :
    (did key value owner write_time write_type : Text) (w : World)
    → ((d o : Text)
        → header_of (entry_of d o (gossiped did key value owner write_time write_type w).state)
          ≡ header_of (entry_of d o w.state))
    → KeepsRest w (gossiped did key value owner write_time write_type w)
unfolding handle_gossiped_data apply_gossip or_default write_data_type
handle_gossiped_data-KeepsRest did key value owner write_time write_type w h = record {
  headers = h;
  cache = ground arith;
  authenticated = ground arith;
  initialization_complete = ground arith;
  sent = ground arith;
}

module _ (did key value owner write_time write_type : Text) (t : ℕ) (w : World) (e : HashTableData)
    (known : entry_of did owner w.state ≡ some e) where
  -- A gossiped write for an owner who has an entry in the application, with a readable time, stores
  -- its value with this node's time exactly if its own time is later than that of the unit at its
  -- place, which counts as 0 where there is none; no other unit changes, and neither does an entry's
  -- permission, its time or its link, the cache, a secret, or what was sent.
  pub gossiped_write_units :
      IsReadable write_time write_type t 3
      → ((d o k : Text)
          → unit_of d o k (gossiped did key value owner write_time write_type w).state ≡ (
              if same_place did owner key d o k
                && ltb (written_at (unit_of did owner key w.state)) t
              then some (DataMap.written value (w.clock w.readings))
              else unit_of d o k w.state))
        × KeepsRest w (gossiped did key value owner write_time write_type w)
  unfolding write_data_type
  gossiped_write_units m = (
    λ d o k.
        ap (λ r. unit_of d o k r.1.state)
          (handle_gossiped_data_lem did key value owner write_time write_type t 3 w m.0 m.1)
        ∙ ap (unit_in k) (apply_write did key value owner t w e known d o)
        ∙ ground (
          arith,
          eq_iff did d,
          eq_iff owner o,
          DataMap.lookup-insert k key value (w.clock w.readings) e.contents,
        ),
    handle_gossiped_data-KeepsRest did key value owner write_time write_type w (λ d o.
        ap (λ r. header_of (entry_of d o r.1.state))
          (handle_gossiped_data_lem did key value owner write_time write_type t 3 w m.0 m.1)
        ∙ ap header_of (apply_write did key value owner t w e known d o)
        ∙ ground (arith, eq_iff did d, eq_iff owner o)),
  )

  -- A gossiped deletion for an owner who has an entry in the application, with a readable time, takes
  -- the unit at its place away exactly if the message is later than it; no other unit changes, and
  -- neither does an entry's permission, its time or its link, the cache, a secret, or what was sent.
  pub gossiped_delete_units :
      IsReadable write_time write_type t 1
      → ((d o k : Text)
          → unit_of d o k (gossiped did key value owner write_time write_type w).state ≡ (
              if same_place did owner key d o k
                && ltb (written_at (unit_of did owner key w.state)) t
              then none
              else unit_of d o k w.state))
        × KeepsRest w (gossiped did key value owner write_time write_type w)
  unfolding write_data_type
  gossiped_delete_units m = (
    λ d o k.
        ap (λ r. unit_of d o k r.1.state)
          (handle_gossiped_data_lem did key value owner write_time write_type t 1 w m.0 m.1)
        ∙ ap (unit_in k) (apply_delete did key value owner t w e known d o)
        ∙ ground (
          arith,
          eq_iff did d,
          eq_iff owner o,
          eq_iff key k,
          Dict.lookup-remove k key e.contents,
        ),
    handle_gossiped_data-KeepsRest did key value owner write_time write_type w (λ d o.
        ap (λ r. header_of (entry_of d o r.1.state))
          (handle_gossiped_data_lem did key value owner write_time write_type t 1 w m.0 m.1)
        ∙ ap header_of (apply_delete did key value owner t w e known d o)
        ∙ ground (arith, eq_iff did d, eq_iff owner o)),
  )

  -- A gossiped truncation for an owner who has an entry keeps of the owner's units exactly those
  -- that are not older than the message, and changes no other unit. (The owner's keys are listed once each, as in any map.)
  pub gossiped_truncate_units :
      IsMap e.contents
      → IsReadable write_time write_type t 2
      → (d o k : Text)
      → unit_of d o k (gossiped did key value owner write_time write_type w).state ≡ (
          if same_space did owner d o k
          then keep (λ u. leb t u.write_time) (unit_of d o k w.state)
          else unit_of d o k w.state)
  unfolding write_data_type
  gossiped_truncate_units map_law m d o k =
      ap (λ r. unit_of d o k r.1.state)
        (handle_gossiped_data_lem did key value owner write_time write_type t 2 w m.0 m.1)
      ∙ ap (unit_in k) (apply_truncate did key value owner t w e known d o)
      ∙ ground (
        arith,
        eq_iff did d,
        eq_iff owner o,
        Dict.lookup-retain k (λ (u : DataUnit). leb t u.write_time) e.contents map_law,
      )

  -- An access change takes effect exactly if its time is later than the last change of the owner's
  -- permission, sets that permission alone, and changes no unit.
  pub gossiped_access_sets :
      IsReadable write_time write_type t 0
      → ((d o : Text)
          → access_of d o (gossiped did key value owner write_time write_type w).state ≡ (
              if (did == d && owner == o) && ltb e.access_modification_time t
              then unwrap_or (parse_bool key) false
              else access_of d o w.state))
        × ((d o k : Text)
            → unit_of d o k (gossiped did key value owner write_time write_type w).state
              ≡ unit_of d o k w.state)
  unfolding write_data_type
  gossiped_access_sets m = (
    λ d o.
        ap (λ r. access_of d o r.1.state)
          (handle_gossiped_data_lem did key value owner write_time write_type t 0 w m.0 m.1)
        ∙ ap access_in (apply_access did key value owner t w e known d o)
        ∙ ground (arith, eq_iff did d, eq_iff owner o),
    λ d o k.
        ap (λ r. unit_of d o k r.1.state)
          (handle_gossiped_data_lem did key value owner write_time write_type t 0 w m.0 m.1)
        ∙ ap (unit_in k) (apply_access did key value owner t w e known d o)
        ∙ ground (arith, eq_iff did d, eq_iff owner o),
  )
