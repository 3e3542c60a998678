-- ===== src/Database/Flush/Effect.antt =====
-- What `flush_cache` does with the values that were written during an initialization.
use samaritan_db.Database.Set.Cache.{set_db_value_caches, put_by, same_owner_refl, cached-put_by}
use samaritan_db.Database.State.{CacheData, TempCache}
use samaritan_db.Prelude.{
  refl, ap, true, false, Option, some, List, arith, unwrap_or, is_some, is_empty, [], ◌+◌, ◌≡◌, ◌∷◌,
}
use samaritan_db.Text.{Text, eq_refl}
use samaritan_db.Dict.{Dict}
use samaritan_db.Dict
use samaritan_db.Database.Get.Visible.{visible}
use samaritan_db.Database.Set.{set_db_value}
use samaritan_db.Database.World.{M, World, gossip_write_data}
use samaritan_db.Database.Flush.{flush_cache, drop_tasks, flush_tasks}

drop_tasks-eq : (tasks : List (M (Unit {0}))) (w : World) → (drop_tasks tasks w).1 ≡ w
unfolding drop_tasks
drop_tasks-eq [] w = refl
drop_tasks-eq (task ∷ tasks) w = drop_tasks-eq tasks w

-- If anything is cached for the application, the flush empties the caches of all applications, and
-- stores nothing: memory, the messages to the network and the clock are as before.
pub flush_cache_drops :
    (did : Text) (w : World)
    → is_empty (unwrap_or (Dict.lookup did w.state.cache) []) ≡ false
    → (flush_cache did w).1 ≡ record w { state = record (w.state) { cache = [] } }
unfolding flush_cache
flush_cache_drops did w filled =
    let entries = unwrap_or (Dict.lookup did w.state.cache) [] in
    rw (filled, flush_cache)
      (ap {B = World} (λ v. record v { state = record (v.state) { cache = [] } })
        (drop_tasks-eq (flush_tasks did entries) w))

insert-filled {ℓ} :
    {V : Type ℓ} (k : Text) (v : V) (m : Dict V) → is_empty (Dict.insert k v m) ≡ false
unfolding Dict.insert
insert-filled k v [] = refl
insert-filled k v (e ∷ m) = ground arith

-- With nothing cached for the application the flush does nothing.
pub flush_cache_idle :
    (did : Text) (w : World)
    → is_empty (unwrap_or (Dict.lookup did w.state.cache) []) ≡ true
    → (flush_cache did w).1 ≡ w
unfolding flush_cache
flush_cache_idle did w idle = ground arith

-- A value written while an initialization was going on, and read back then, is lost by the flush
-- that ends it: afterwards a read finds what was stored in memory before the write.
pub flush_cache_loses :
    (did : Text) (sam_did : Option Text) (key value : Text) (w : World)
    → is_some (Dict.lookup did w.state.applications) ≡ true
    → w.initialization_complete ≡ false
    → let w1 = (set_db_value did sam_did key value w).1 in
      let w2 = (flush_cache did w1).1 in
      (visible did sam_did key w1.state ≡ some value)
      × (visible did sam_did key w2.state
          ≡ visible did sam_did key (record (w.state) { cache = [] }))
flush_cache_loses did sam_did key value w known going_on =
    rw (set_db_value_caches did sam_did key value w known going_on) (read_back, lost)
  where
    w1 : World
    w1 = record w {
      state = put_by did sam_did key value (w.clock w.readings) w.state;
      sent = gossip_write_data did key value (unwrap_or sam_did did) (w.clock w.readings) ∷ w.sent;
      readings = w.readings + 1;
    }

    entry : CacheData
    entry = record { sam_did = sam_did; value = value; write_time = w.clock w.readings }

    entries : TempCache
    entries = Dict.insert key entry (unwrap_or (Dict.lookup did w.state.cache) [])

    filled : is_empty (unwrap_or (Dict.lookup did w1.state.cache) []) ≡ false
    filled = ground (
      arith,
      eq_refl did,
      Dict.lookup-insert did did entries w.state.cache,
      insert-filled key entry (unwrap_or (Dict.lookup did w.state.cache) []),
    )

    read_back : visible did sam_did key w1.state ≡ some value
    read_back = ground (
      arith,
      cached-put_by did sam_did key value (w.clock w.readings) w.state did sam_did key,
      eq_refl did,
      eq_refl key,
      same_owner_refl sam_did,
    )

    lost :
        visible did sam_did key (flush_cache did w1).1.state
        ≡ visible did sam_did key (record (w.state) { cache = [] })
    lost = ap (λ v. visible did sam_did key v.state) (flush_cache_drops did w1 filled)
