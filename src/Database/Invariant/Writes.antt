-- ===== src/Database/Invariant/Writes.antt =====
-- What a command may make of the state: whatever holds of each of these states holds after it.
use samaritan_db.Prelude.{
  ℕ, inl, inr, Bool, false, Option, some, arith, leb, Option-cases, unwrap_or, [], ◌+◌, ◌≡◌,
}
use samaritan_db.Text.{Text}
use samaritan_db.Dict.{Dict, IsMap, retain-IsMap, remove-IsMap}
use samaritan_db.Database.Gossip.{WriteDataType, apply_gossip, parse_bool}
use samaritan_db.Database.Access.{manage_db_access}
use samaritan_db.Database.DataMap
use samaritan_db.Dict
use samaritan_db.Database.Set.Cache.{put_by}
use samaritan_db.Database.Set.Effect.{stored}
use samaritan_db.Database.Set.{set_db_value, fresh_entry}
use samaritan_db.Database.Del.{del_db_value, truncate_db_keys}
use samaritan_db.Database.World.{World}
use samaritan_db.Database.View.{replaced, entry_of, table_of}
use samaritan_db.Database.State.{insert_data, DbState, HashTableData}

module _ (P : DbState → Type 0) (did : Text) (sam_did : Option Text) (w : World) where
  pub set_db_value-keeps :
      (key value : Text)
      → P w.state
      → P (stored did (unwrap_or sam_did did) key value (w.clock (w.readings + 1)) w.state)
      → P (put_by did sam_did key value (w.clock w.readings) w.state)
      → P (set_db_value did sam_did key value w).1.state
  unfolding set_db_value insert_data
  set_db_value-keeps key value h a b = ground arith

  pub del_db_value-keeps :
      (key : Text)
      → P w.state
      → P (record w.state {
        cache =
            Dict.insert did
              (Dict.remove key (unwrap_or (Dict.lookup did w.state.cache) []))
              w.state.cache;
      })
      → ((e : HashTableData)
          → entry_of did (unwrap_or sam_did did) w.state ≡ some e
          → P (
              replaced did
                (unwrap_or sam_did did)
                (record e { contents = Dict.remove key e.contents })
                w.state))
      → P (del_db_value did sam_did key w).1.state
  unfolding del_db_value DataMap.delete_data_entry
  del_db_value-keeps key h a b =
      elim (Option-cases (entry_of did (unwrap_or sam_did did) w.state)) [
        | inl missing ↦ ground arith
        | inr (e, found) ↦ ground (arith, b e found)
      ]

  pub truncate_db_keys-keeps :
      P w.state
      → ((e : HashTableData)
          → P (replaced did (unwrap_or sam_did did) (record e { contents = [] }) w.state))
      → P (truncate_db_keys did sam_did w).1.state
  unfolding truncate_db_keys DataMap.clear
  truncate_db_keys-keeps h b = elim (Option-cases (entry_of did (unwrap_or sam_did did) w.state)) [
    | inl missing ↦ ground arith
    | inr (e, found) ↦ ground (arith, b e)
  ]

module _ (P : DbState → Type 0) (did owner : Text) (w : World) where
  pub manage_db_access-keeps :
      (perm : Bool)
      → P w.state
      → ((e : HashTableData)
          → entry_of did owner w.state ≡ some e
          → P (
              replaced did owner
                (record e { access = perm; access_modification_time = w.clock w.readings })
                w.state))
      → P (manage_db_access did owner perm w).1.state
  unfolding manage_db_access
  manage_db_access-keeps perm h b = elim (Option-cases (entry_of did owner w.state)) [
    | inl missing ↦ ground arith
    | inr (e, found) ↦ ground (arith, b e found)
  ]

-- The states that a gossiped message may leave, from one in which the application is there.
module _ (P : DbState → Type 0) (did key value owner : Text) (t : ℕ) (w : World)
    (h : P w.state) where
  pub apply_gossip-keeps :
      (kind : WriteDataType)
      → P (record w.state {
        applications =
            Dict.insert did
              (Dict.insert owner (fresh_entry owner key value (w.clock w.readings)) [])
              w.state.applications;
      })
      → ((e e' : HashTableData)
          → entry_of did owner w.state ≡ some e
          → (IsMap e.contents → IsMap e'.contents)
          → P (replaced did owner e' w.state))
      → P (apply_gossip kind did key value owner t (table_of did w.state) w).1.state
  unfolding apply_gossip
  apply_gossip-keeps kind a b = elim (Option-cases (entry_of did owner w.state)) [
    | inl missing ↦ ground arith
    | inr (e, found) ↦
        let now = w.clock w.readings in
        let put : HashTableData = record e { contents = DataMap.insert key value now e.contents } in
        let taken : HashTableData = record e { contents = Dict.remove key e.contents } in
        let kept : HashTableData = record e {
          contents = Dict.retain (λ u. leb t u.write_time) e.contents;
        } in
        let permitted : HashTableData = record e {
          access = unwrap_or (parse_bool key) false;
          access_modification_time = now;
        } in
        ground (
          arith,
          b e put found (DataMap.insert-IsMap key value now e.contents),
          b e taken found (Dict.remove-IsMap key e.contents),
          b e kept found (Dict.retain-IsMap (λ u. leb t u.write_time) e.contents),
          b e permitted found (λ h. h),
        )
  ]
