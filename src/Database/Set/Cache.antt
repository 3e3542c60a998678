-- ===== src/Database/Set/Cache.antt =====
-- What `set_db_value` does while an initialization is going on.
use samaritan_db.Dict
use samaritan_db.Database.Reply.{ok, empty, bake_response}
use samaritan_db.Database.Set.{set_db_value}
use samaritan_db.Database.World.{gossip_write_data, World}
use samaritan_db.Database.State.{CacheData, DbState, insert_data}
use samaritan_db.Database.Get.{cached, same_owner}
use samaritan_db.Prelude.{
  ℕ, refl, true, false, Option, none, some, arith, unwrap_or, is_some, [], ◌+◌, ◌≡◌, ◌&&◌, ◌∷◌,
  if◌then◌else◌,
}
use samaritan_db.Text.{Text, eq_iff, eq_refl, ◌==◌}
use samaritan_db.Dict.{Dict}

-- The state with the value put in the application's cache.
abbrev pub put_by : Text → Option Text → Text → Text → ℕ → DbState → DbState
put_by did sam_did key value now s =
    let entry : CacheData = record { sam_did = sam_did; value = value; write_time = now } in
    let entries = Dict.insert key entry (unwrap_or (Dict.lookup did s.cache) []) in
    record s { cache = Dict.insert did entries s.cache }

-- The write goes to the cache, memory stays as it is, and peers are told of the write at once.
pub set_db_value_caches :
    (did : Text) (sam_did : Option Text) (key value : Text) (w : World)
    → is_some (Dict.lookup did w.state.applications) ≡ true
    → w.initialization_complete ≡ false
    → set_db_value did sam_did key value w ≡ (
      ok (bake_response empty),
      record w {
        state = put_by did sam_did key value (w.clock w.readings) w.state;
        sent =
            gossip_write_data did key value (unwrap_or sam_did did) (w.clock w.readings) ∷ w.sent;
        readings = w.readings + 1;
      },
    )
unfolding set_db_value insert_data
set_db_value_caches did sam_did key value w known going_on = ground arith

pub same_owner_refl : (a : Option Text) → same_owner a a ≡ true
unfolding same_owner
same_owner_refl none = refl
same_owner_refl (some a) = eq_refl a

-- The cache reads the new value at its key, for its owner alone; at other keys what it read before.
pub cached-put_by :
    (did : Text) (sam_did : Option Text) (key value : Text) (now : ℕ) (s : DbState)
    → (d : Text) (o : Option Text) (k : Text)
    → cached d o k (put_by did sam_did key value now s).cache ≡ (
        if did == d && key == k
        then (if same_owner sam_did o then some value else none)
        else cached d o k s.cache)
unfolding cached Dict.lookup
cached-put_by did sam_did key value now s d o k =
    let entry : CacheData = record { sam_did = sam_did; value = value; write_time = now } in
    let entries = unwrap_or (Dict.lookup did s.cache) [] in
    ground (
      arith,
      eq_iff did d,
      Dict.lookup-insert d did (Dict.insert key entry entries) s.cache,
      Dict.lookup-insert k key entry entries,
    )
