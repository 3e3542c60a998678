-- ===== src/Database/Del/Truncate.antt =====
-- What `truncate_db_keys` does to the state, seen by its clients.
use samaritan_db.Database.DataMap
use samaritan_db.Dict
use samaritan_db.Database.Del.Effect.{replaced_world, Loses}
use samaritan_db.Database.Reply.{empty, ok, Value, bake_response, err}
use samaritan_db.Database.Del.{truncate_db_keys}
use samaritan_db.Database.World.{set_network_sync_flag, gossip_truncate_event, World}
use samaritan_db.Database.View.{access_of-replaced, entry_of, unit_of-replaced}
use samaritan_db.Database.State.{HashTableData}
use samaritan_db.Prelude.{refl, Bool, true, Option, some, arith, unwrap_or, [], ◌≡◌, ◌∙◌, ◌&&◌, ◌∷◌}
use samaritan_db.Text.{Text, eq_iff, ◌==◌}
use samaritan_db.Dict.{Dict}

-- The place belongs to the owner in the application.
abbrev pub same_space : Text → Text → Text → Text → Text → Bool
same_space did owner d o k = did == d && owner == o

module _ (did : Text) (sam_did : Option Text) (w : World) where
  truncate_db_keys_lem :
      (e : HashTableData)
      → entry_of did (unwrap_or sam_did did) w.state ≡ some e
      → e.access ≡ true
      → truncate_db_keys did sam_did w ≡ (
        ok (bake_response empty),
        replaced_world did
            (unwrap_or sam_did did)
            (record e { contents = [] })
            (gossip_truncate_event did (unwrap_or sam_did did) (w.clock w.readings))
            w,
      )
  unfolding truncate_db_keys DataMap.clear Dict.lookup
  truncate_db_keys_lem e found may = ground arith

  -- A truncation that is refused has changed nothing at all.
  pub truncate_db_keys-err :
      (v : Value)
      → (truncate_db_keys did sam_did w).0 ≡ err v
      → (truncate_db_keys did sam_did w).1 ≡ w
  unfolding truncate_db_keys
  truncate_db_keys-err v h = ground arith

  -- For an owner that has an accessible entry the truncation succeeds: every unit of the owner is
  -- gone, every other unit, all permissions and the cache stay, and peers are told.
  pub truncate_db_keys-Loses :
      (e : HashTableData)
      → entry_of did (unwrap_or sam_did did) w.state ≡ some e
      → e.access ≡ true
      → let (r, w') = truncate_db_keys did sam_did w in
        (r ≡ ok (bake_response empty))
        × Loses (same_space did (unwrap_or sam_did did)) w w'
        × (w'.sent
            ≡ gossip_truncate_event did (unwrap_or sam_did did) (w.clock w.readings)
              ∷ set_network_sync_flag did
              ∷ w.sent)
  truncate_db_keys-Loses e found may =
      let e' : HashTableData = record e { contents = [] } in
      rw (truncate_db_keys_lem e found may) (
        refl,
        record {
          units = λ d o k.
              unit_of-replaced did (unwrap_or sam_did did) e' d o k w.state
              ∙ unfold Dict.lookup in refl;
          access = λ d o. ground (
            arith,
            eq_iff did d,
            eq_iff (unwrap_or sam_did did) o,
            access_of-replaced did (unwrap_or sam_did did) e' d o w.state,
          );
          cache = refl;
          authenticated = refl;
        },
        refl,
      )
