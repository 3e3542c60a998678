-- ===== src/Database/ReadWrite.antt =====
-- What `get_db_value` reads after `set_db_value`, in both phases of the node's life.
use samaritan_db.Prelude.{
  ap, true, false, Option, none, some, arith, unwrap_or, is_some, ◌+◌, ◌≡◌, ◌∙◌, ◌∷◌,
}
use samaritan_db.Text.{Text, eq_refl}
use samaritan_db.Dict.{Dict}
use samaritan_db.Database.Set.Cache.{cached-put_by, same_owner_refl, set_db_value_caches, put_by}
use samaritan_db.Dict
use samaritan_db.Database.Set.Effect.{set_db_value-Stores, Stores}
use samaritan_db.Database.Get.Visible.{get_db_value-visible, visible}
use samaritan_db.Database.Reply.{get, bake_response, ok}
use samaritan_db.Database.Set.{set_db_value}
use samaritan_db.Database.World.{World, gossip_write_data}
use samaritan_db.Database.View.{access_of}
use samaritan_db.Database.Get.{cached, same_owner, get_db_value}

-- A value written to memory is read back by its owner, if nothing is cached for the key and the
-- owner's entry is accessible.
pub get_db_value-set_db_value :
    (did : Text) (sam_did : Option Text) (key value : Text) (w : World)
    → is_some (Dict.lookup did w.state.applications) ≡ true
    → w.initialization_complete ≡ true
    → cached did sam_did key w.state.cache ≡ none
    → access_of did (unwrap_or sam_did did) w.state ≡ true
    → (get_db_value did sam_did key (set_db_value did sam_did key value w).1).0
      ≡ ok (bake_response (get key value))
get_db_value-set_db_value did sam_did key value w known complete uncached open_access =
    (get_db_value-visible did sam_did key value after).1 seen
  where
    owner : Text
    owner = unwrap_or sam_did did

    after : World
    after = (set_db_value did sam_did key value w).1

    stores : Stores did owner key value w after
    stores = (set_db_value-Stores did sam_did key value w known complete).1

    cache_same : cached did sam_did key after.state.cache ≡ none
    cache_same = ap (cached did sam_did key) stores.cache ∙ uncached

    seen : visible did sam_did key after.state ≡ some value
    seen = ground (
      arith,
      cache_same,
      stores.access did owner,
      stores.units did owner key,
      eq_refl did,
      eq_refl owner,
      eq_refl key,
    )

-- While an initialization is going on, a value written is read back by the same caller at once.
pub get_db_value-set_db_value_cached :
    (did : Text) (sam_did : Option Text) (key value : Text) (w : World)
    → is_some (Dict.lookup did w.state.applications) ≡ true
    → w.initialization_complete ≡ false
    → (get_db_value did sam_did key (set_db_value did sam_did key value w).1).0
      ≡ ok (bake_response (get key value))
get_db_value-set_db_value_cached did sam_did key value w known going_on =
    (get_db_value-visible did sam_did key value (set_db_value did sam_did key value w).1).1 (
      rw (set_db_value_caches did sam_did key value w known going_on) (
        ground (
          arith,
          cached-put_by did sam_did key value (w.clock w.readings) w.state did sam_did key,
          eq_refl did,
          eq_refl key,
          same_owner_refl sam_did,
        )))

-- The cache of an application has one place for each key, whoever owns it: of two values written
-- for two owners under one key while an initialization is going on, the first is no longer cached.
pub cached-set_db_value_other :
    (did : Text) (a b : Option Text) (key v1 v2 : Text) (w : World)
    → same_owner b a ≡ false
    → is_some (Dict.lookup did w.state.applications) ≡ true
    → w.initialization_complete ≡ false
    → let w1 = (set_db_value did a key v1 w).1 in
      let w2 = (set_db_value did b key v2 w1).1 in
      (cached did a key w1.state.cache ≡ some v1) × (cached did a key w2.state.cache ≡ none)
cached-set_db_value_other did a b key v1 v2 w other known going_on =
    rw (set_db_value_caches did a key v1 w known going_on) (
      rw (set_db_value_caches did b key v2 w1 known going_on) (
        ground (
          arith,
          cached-put_by did a key v1 (w.clock w.readings) w.state did a key,
          cached-put_by did b key v2 (w.clock (w.readings + 1)) w1.state did a key,
          eq_refl did,
          eq_refl key,
          same_owner_refl a,
        )))
  where
    w1 : World
    w1 = record w {
      state = put_by did a key v1 (w.clock w.readings) w.state;
      sent = gossip_write_data did key v1 (unwrap_or a did) (w.clock w.readings) ∷ w.sent;
      readings = w.readings + 1;
    }
