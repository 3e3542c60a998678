-- ===== src/Database/Del/Effect.antt =====
-- What `del_db_value` and `truncate_db_keys` do to the state, seen by its clients.
use samaritan_db.Database.Get.Visible.{visible}
use samaritan_db.Prelude.{
  refl, inl, inr, Bool, true, Option, none, some, arith, Option-cases, unwrap_or, is_some, ◌+◌, ◌≡◌,
  ◌↔◌, ◌∷◌, if◌then◌else◌,
}
use samaritan_db.Text.{Text, eq_iff}
use samaritan_db.Dict.{Dict}
use samaritan_db.Database.DataMap
use samaritan_db.Dict
use samaritan_db.Database.Reply.{empty, err, bake_response, Value, ok, bake_error}
use samaritan_db.Database.Del.{del_db_value}
use samaritan_db.Database.World.{World, ChannelMsg, set_network_sync_flag, gossip_delete_event}
use samaritan_db.Database.View.{
  unit_of, replaced, entry_of, access_of, access_of-replaced, same_place, unit_of-replaced,
}
use samaritan_db.Database.State.{HashTableData, DataUnit}
use samaritan_db.Database.Get.{cached}

-- A world in which some units are gone and all else that a client sees is the same.
pub record Loses (gone : Text → Text → Text → Bool) (w w' : World) : Type 0 where
  pub units :
      (d o k : Text) → unit_of d o k w'.state ≡ (if gone d o k then none else unit_of d o k w.state)
  pub access : (d o : Text) → access_of d o w'.state ≡ access_of d o w.state
  pub cache : w'.state.cache ≡ w.state.cache
  pub authenticated : w'.state.authenticated ≡ w.state.authenticated

-- A world in which a hash table entry has lost units, and the loss has been announced.
abbrev pub replaced_world : Text → Text → HashTableData → ChannelMsg → World → World
replaced_world did owner e msg w = record w {
  state = replaced did owner e w.state;
  sent = msg ∷ set_network_sync_flag did ∷ w.sent;
  readings = w.readings + 1;
}

module _ (did : Text) (sam_did : Option Text) (key : Text) (w : World) where
  -- A visible value that is not cached.
  del_db_value_lem :
      (e : HashTableData) (u : DataUnit)
      → cached did sam_did key w.state.cache ≡ none
      → entry_of did (unwrap_or sam_did did) w.state ≡ some e
      → e.access ≡ true
      → Dict.lookup key e.contents ≡ some u
      → u.access ≡ true
      → del_db_value did sam_did key w ≡ (
        ok (bake_response empty),
        replaced_world did
            (unwrap_or sam_did did)
            (record e { contents = Dict.remove key e.contents })
            (gossip_delete_event did key (unwrap_or sam_did did) (w.clock w.readings))
            w,
      )
  unfolding del_db_value DataMap.get_data DataMap.get_access_state DataMap.delete_data_entry
      Dict.lookup
  del_db_value_lem e u uncached found may here may_unit = ground arith

  -- A delete succeeds exactly if a value is visible at its place.
  pub del_db_value-visible :
      ((del_db_value did sam_did key w).0 ≡ ok (bake_response empty))
      ↔ (is_some (visible did sam_did key w.state) ≡ true)
  unfolding del_db_value bake_response bake_error DataMap.get_data DataMap.get_access_state
      Dict.lookup
  del_db_value-visible = ground arith

  -- A delete that is refused has changed nothing at all.
  pub del_db_value-err :
      (v : Value)
      → (del_db_value did sam_did key w).0 ≡ err v
      → (del_db_value did sam_did key w).1 ≡ w
  unfolding del_db_value
  del_db_value-err v h = ground arith

  -- The entry and the unit behind a stored value that is visible.
  visible_parts :
      cached did sam_did key w.state.cache ≡ none
      → is_some (visible did sam_did key w.state) ≡ true
      → (e : HashTableData) × (u : DataUnit) × (entry_of did (unwrap_or sam_did did) w.state
          ≡ some e)
        × (e.access ≡ true)
        × (Dict.lookup key e.contents ≡ some u)
        × (u.access ≡ true)
  visible_parts uncached h = elim (Option-cases (entry_of did (unwrap_or sam_did did) w.state)) [
    | inl missing ↦ absurd (ground arith)
    | inr (e, found) ↦ elim (Option-cases (Dict.lookup key e.contents)) [
      | inl missing ↦ absurd (ground arith)
      | inr (u, here) ↦ (e, u, found, ground arith, here, ground arith)
    ]
  ]

  -- A successful delete of a value that is not cached takes away the unit at its place and nothing
  -- else that a client sees, and announces itself.
  pub del_db_value-Loses :
      cached did sam_did key w.state.cache ≡ none
      → (del_db_value did sam_did key w).0 ≡ ok (bake_response empty)
      → let w' = (del_db_value did sam_did key w).1 in
        Loses (same_place did (unwrap_or sam_did did) key) w w'
        × (w'.sent
            ≡ gossip_delete_event did key (unwrap_or sam_did did) (w.clock w.readings)
              ∷ set_network_sync_flag did
              ∷ w.sent)
  del_db_value-Loses uncached done =
      let (e, u, found, may, here, may_unit) =
        visible_parts uncached (del_db_value-visible.0 done) in
      let e' : HashTableData = record e { contents = Dict.remove key e.contents } in
      rw (del_db_value_lem e u uncached found may here may_unit) (
        record {
          units = λ d o k. ground (
            arith,
            eq_iff did d,
            eq_iff (unwrap_or sam_did did) o,
            unit_of-replaced did (unwrap_or sam_did did) e' d o k w.state,
            Dict.lookup-remove k key e.contents,
          );
          access = λ d o. ground (
            arith,
            eq_iff did d,
            eq_iff (unwrap_or sam_did did) o,
            access_of-replaced did (unwrap_or sam_did did) e' d o w.state,
          );
          cache = refl;
          authenticated = refl;
        },
        refl,
      )
