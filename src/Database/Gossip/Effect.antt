-- ===== src/Database/Gossip/Effect.antt =====
-- What a gossiped write, deletion, truncation or access change does, seen by clients.
use samaritan_db.Prelude.{ℕ, refl, none, some, arith, unwrap_or, [], ◌≡◌, ◌&&◌, if◌then◌else◌}
use samaritan_db.Text.{Text, eq_iff, eq_refl, ◌==◌}
use samaritan_db.Dict.{Dict}
use samaritan_db.Dict
use samaritan_db.Text.Number.{u8_limit, u64_limit, parse_uint}
use samaritan_db.Database.World.{World}
use samaritan_db.Database.View.{table_of, entry_of}
use samaritan_db.Database.State.{DbState, HashTableData}
use samaritan_db.Database.Gossip.{handle_gossiped_data, apply_gossip, write_data_type, or_default}

pub entry_of-or_default :
    (did d o : Text) (s : DbState) → entry_of d o (or_default did s) ≡ entry_of d o s
unfolding or_default
entry_of-or_default did d o s =
    ground (arith, eq_iff did d, Dict.lookup-insert d did [] s.applications, lookup-nil o)
  where
    lookup-nil : (o : Text) → Dict.lookup {V = HashTableData} o [] ≡ none
    lookup-nil o = unfold Dict.lookup in refl

table_of-or_default : (did : Text) (s : DbState) → table_of did (or_default did s) ≡ table_of did s
unfolding or_default
table_of-or_default did s =
    ground (arith, eq_refl did, Dict.lookup-insert did did [] s.applications)

-- A message with readable numbers is applied to the application's table.
pub handle_gossiped_data_lem :
    (did key value owner write_time write_type : Text) (t n : ℕ) (w : World)
    → parse_uint u64_limit write_time ≡ some t
    → parse_uint u8_limit write_type ≡ some n
    → handle_gossiped_data did key value owner write_time write_type w
      ≡ apply_gossip
          (write_data_type n)
          did
          key
          value
          owner
          t
          (table_of did w.state)
          (record w { state = or_default did w.state })
unfolding handle_gossiped_data
handle_gossiped_data_lem did key value owner write_time write_type t n w ht hn =
    rw (ht, hn, table_of-or_default did w.state)

-- The entries after a save over a default.
pub entry_of-replaced_default :
    (did owner : Text) (e : HashTableData) (d o : Text) (s : DbState)
    → Dict.lookup o (
        unwrap_or
          (Dict.lookup d (
            Dict.insert did (Dict.insert owner e (table_of did s)) (or_default did s).applications))
          [])
      ≡ (if did == d && owner == o then some e else entry_of d o s)
entry_of-replaced_default did owner e d o s = ground (
  arith,
  eq_iff did d,
  entry_of-or_default did d o s,
  Dict.lookup-insert d did (Dict.insert owner e (table_of did s)) (or_default did s).applications,
  Dict.lookup-insert o owner e (table_of did s),
)
