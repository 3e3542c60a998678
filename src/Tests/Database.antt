-- ===== src/Tests/Database.antt =====
-- The commands of the database at concrete worlds.
use samaritan_db.Prelude.{
  filter, refl, true, false, none, some, arith, [], ◌≡◌, ◌≢◌, ◌↔◌, ◌⊎◌, ◌∷◌, if◌then◌else◌,
}
use samaritan_db.Text.{Text, codes, ◌==◌}
use samaritan_db.Dict.{Dict}
use samaritan_db.Database.Get.Answered.{get_db_value-IsStored, IsCached, IsStored}
use samaritan_db.Network.Requests.{answers}
use samaritan_db.Database.Set.Overlap.{overlapped}
use samaritan_db.Database.Set.Lost.{overlapped_loses}
use samaritan_db.Database.DataMap.{written}
use samaritan_db.Dict
use samaritan_db.Text.Number.{parse_uint}
use samaritan_db.Text.Utf8.{from_utf8, utf8_from, is_utf8, lead}
use samaritan_db.Text.Split.{split_from, strip_prefix, split}
use samaritan_db.Util.ReturnData.{second_or_default, output_of, collate, parse_contract_return_data}
use samaritan_db.Database.Set.Effect.{Stores, set_db_value-Stores}
use samaritan_db.Database.Del.Truncate.{truncate_db_keys-Loses, same_space}
use samaritan_db.Database.Del.Effect.{Loses, del_db_value-Loses, del_db_value-visible}
use samaritan_db.Database.Access.Effect.{manage_db_access_denies}
use samaritan_db.Database.Get.Visible.{visible, check_db_key_existence-get}
use samaritan_db.Database.Flush.Effect.{flush_cache_loses}
use samaritan_db.Database.Init.Authentication.{init_application_accepts, forget_application_obeys}
use samaritan_db.Database.Reply.{
  entry_not_found, status, bake_error, access_denied, bake_response, empty, ok, err, get, exists,
  Value,
}
use samaritan_db.Database.Set.{set_db_value}
use samaritan_db.Database.Del.{del_db_value, truncate_db_keys}
use samaritan_db.Database.Keys.{get_db_keys}
use samaritan_db.Database.ReadWrite.{get_db_value-set_db_value}
use samaritan_db.Database.World.{
  unsubscribe_node_from_application, gossip_delete_event, gossip_truncate_event,
  set_network_sync_flag, gossip_write_data,
}
use samaritan_db.Database.View.{same_place, unit_of}
use samaritan_db.Database.Init.{
  init_hashtable, init_application, proper_hashtable, forget_application,
}
use samaritan_db.Database.Flush.{flush_cache}
use samaritan_db.Database.Access.{manage_db_access}
use samaritan_db.Database.Get.{cached, get_db_value, check_db_key_existence}
use samaritan_db.Tests.Data.{
  name, sam, old, node, app, node_state, starting, fresh, sam_entry, eve, generous,
}

set_db_value-Stores_example :
    let (r, w') = set_db_value app (some sam) name fresh node in
    (r ≡ ok (bake_response empty)) × Stores app sam name fresh node w'
unfolding Dict.lookup ◌==◌
set_db_value-Stores_example = set_db_value-Stores app (some sam) name fresh node refl refl

get_db_value-set_db_value_example :
    (get_db_value app (some sam) name (set_db_value app (some sam) name fresh node).1).0
    ≡ ok (bake_response (get name fresh))
unfolding Dict.lookup ◌==◌ cached
get_db_value-set_db_value_example =
    get_db_value-set_db_value app (some sam) name fresh node refl refl refl refl

get_db_value-IsStored_example :
    ((get_db_value app (some sam) name node).0 ≡ ok (bake_response (get name old))) ↔ (
      IsCached app (some sam) name old node_state
      ⊎ (((v : Text) → ¬ IsCached app (some sam) name v node_state)
          × IsStored app sam name old node_state))
get_db_value-IsStored_example = get_db_value-IsStored app (some sam) name old node

check_db_key_existence-get_example :
    (((check_db_key_existence app (some eve) name node).0 ≡ ok (bake_response (exists false)))
      ↔ ((get_db_value app (some eve) name node).0 ≡ err (bake_error entry_not_found)))
    × (((check_db_key_existence app (some eve) name node).0 ≡ ok (bake_response (exists true))) ↔ (
        (value : Text) × ((get_db_value app (some eve) name node).0
          ≡ ok (bake_response (get name value)))))
    × ((v : Value)
        → ((check_db_key_existence app (some eve) name node).0 ≡ err v)
          ↔ (((get_db_value app (some eve) name node).0 ≡ err v) × (status v ≢ some 404)))
check_db_key_existence-get_example = check_db_key_existence-get app (some eve) name node

del_db_value-Loses_example :
    let w' = (del_db_value app (some sam) name node).1 in
    Loses (same_place app sam name) node w'
    × (w'.sent ≡ gossip_delete_event app name sam 100 ∷ set_network_sync_flag app ∷ [])
unfolding Dict.lookup ◌==◌ cached
del_db_value-Loses_example =
    del_db_value-Loses app (some sam) name node refl
      ((del_db_value-visible app (some sam) name node).1 refl)

truncate_db_keys-Loses_example :
    let (r, w') = truncate_db_keys app (some sam) node in
    (r ≡ ok (bake_response empty))
    × Loses (same_space app sam) node w'
    × (w'.sent ≡ gossip_truncate_event app sam 100 ∷ set_network_sync_flag app ∷ [])
unfolding Dict.lookup ◌==◌
truncate_db_keys-Loses_example = truncate_db_keys-Loses app (some sam) node sam_entry refl refl

manage_db_access_denies_example :
    let w' = (manage_db_access app sam false node).1 in
    let denied = err (bake_error access_denied) in
    ((get_db_value app (some sam) name w').0 ≡ denied)
    × ((check_db_key_existence app (some sam) name w').0 ≡ denied)
    × ((del_db_value app (some sam) name w').0 ≡ denied)
    × ((get_db_keys app (some sam) 0 50 w').0 ≡ denied)
    × ((truncate_db_keys app (some sam) w').0 ≡ denied)
unfolding Dict.lookup ◌==◌ cached
manage_db_access_denies_example =
    manage_db_access_denies app (some sam) name 0 50 node sam_entry refl refl

flush_cache_loses_example :
    let w1 = (set_db_value app (some sam) name fresh starting).1 in
    let w2 = (flush_cache app w1).1 in
    (visible app (some sam) name w1.state ≡ some fresh)
    × (visible app (some sam) name w2.state
        ≡ visible app (some sam) name (record node_state { cache = [] }))
unfolding Dict.lookup ◌==◌
flush_cache_loses_example = flush_cache_loses app (some sam) name fresh starting refl refl

init_application_accepts_example :
    let w' = (init_application generous app old node).1 in
    (Dict.lookup app w'.state.authenticated ≡ some old)
    × (Dict.lookup app w'.state.applications
        ≡ some (proper_hashtable ((app, record { cid = codes "Qm"; access = true }) ∷ [])))
    × (w'.initialization_complete ≡ true)
unfolding init_hashtable
init_application_accepts_example =
    init_application_accepts generous app old (codes "Qm")
      ((app, record { cid = codes "Qm"; access = true }) ∷ []) node (omega arith) refl refl
      (λ msg. refl)

forget_application_obeys_example :
    let w' = (forget_application generous app old node).1 in
    (Dict.lookup app w'.state.applications ≡ none)
    × (w'.sent ≡ unsubscribe_node_from_application app ∷ [])
unfolding parse_contract_return_data output_of collate second_or_default split split_from
    strip_prefix from_utf8 is_utf8 utf8_from lead parse_uint filter
forget_application_obeys_example = forget_application_obeys generous app old [] node refl tt

overlapped_loses_example :
    let (answers, w') = overlapped app (some sam) name fresh none name old node in
    (answers ≡ (ok (bake_response empty), ok (bake_response empty)))
    × (w'.sent
        ≡ gossip_write_data app name old app 102
          ∷ set_network_sync_flag app
          ∷ gossip_write_data app name fresh sam 100
          ∷ set_network_sync_flag app
          ∷ [])
    × ((d o k : Text)
        → unit_of d o k w'.state ≡ (
            if same_place app app name d o k
            then some (written old 103)
            else unit_of d o k node_state))
unfolding Dict.lookup ◌==◌
overlapped_loses_example = overlapped_loses app (some sam) none name fresh name old node refl refl
