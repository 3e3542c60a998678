-- ===== src/Database/Access/Effect.antt =====
-- What `manage_db_access` does, and that reads and writes obey it.
use samaritan_db.Prelude.{
  ℕ, refl, Bool, false, Option, none, some, arith, unwrap_or, ◌+◌, ◌≡◌, ◌∙◌, ◌&&◌, ◌∷◌,
  if◌then◌else◌,
}
use samaritan_db.Text.{Text, eq_iff, eq_refl, ◌==◌}
use samaritan_db.Dict.{Dict}
use samaritan_db.Dict
use samaritan_db.Database.Reply.{err, access_denied, bake_error}
use samaritan_db.Database.Del.{truncate_db_keys, del_db_value}
use samaritan_db.Database.Keys.{get_db_keys}
use samaritan_db.Database.World.{set_network_sync_flag, gossip_access_change, World}
use samaritan_db.Database.View.{
  access_of, access_of-replaced, entry_of, unit_of, unit_of-replaced, replaced, entry_of-save,
}
use samaritan_db.Database.State.{HashTableData}
use samaritan_db.Database.Access.{manage_db_access}
use samaritan_db.Database.Get.{get_db_value, check_db_key_existence, cached}

module _ (did owner : Text) (perm : Bool) (w : World) where
  pub manage_db_access_lem :
      (e : HashTableData)
      → entry_of did owner w.state ≡ some e
      → (manage_db_access did owner perm w).1 ≡ record w {
        state =
            replaced did owner
              (record e { access = perm; access_modification_time = w.clock w.readings })
              w.state;
        sent =
            gossip_access_change perm did owner (w.clock (w.readings + 1))
            ∷ set_network_sync_flag did
            ∷ w.sent;
        readings = w.readings + 1 + 1;
      }
  unfolding manage_db_access Dict.lookup
  manage_db_access_lem e found = ground arith

  -- For an owner without an entry nothing happens.
  pub manage_db_access_unknown :
      entry_of did owner w.state ≡ none → (manage_db_access did owner perm w).1 ≡ w
  unfolding manage_db_access
  manage_db_access_unknown missing = ground arith

  -- For an owner with an entry exactly this owner's permission is set; no unit, no other
  -- permission and nothing cached changes, and peers are told.
  pub manage_db_access_sets :
      (e : HashTableData)
      → entry_of did owner w.state ≡ some e
      → let w' = (manage_db_access did owner perm w).1 in
        ((d o : Text)
          → access_of d o w'.state
            ≡ (if did == d && owner == o then perm else access_of d o w.state))
        × ((d o k : Text) → unit_of d o k w'.state ≡ unit_of d o k w.state)
        × (w'.state.cache ≡ w.state.cache)
        × (w'.sent
            ≡ gossip_access_change perm did owner (w.clock (w.readings + 1))
              ∷ set_network_sync_flag did
              ∷ w.sent)
  manage_db_access_sets e found =
      let e' : HashTableData = record e {
        access = perm;
        access_modification_time = w.clock w.readings;
      } in
      rw (manage_db_access_lem e found) (
        λ d o. access_of-replaced did owner e' d o w.state,
        λ d o k.
            ground
              (arith, eq_iff did d, eq_iff owner o, unit_of-replaced did owner e' d o k w.state),
        refl,
        refl,
      )

-- What the five queries answer about an entry whose permission is withdrawn.
module _ (did : Text) (sam_did : Option Text) (w : World) (e : HashTableData)
    (found : entry_of did (unwrap_or sam_did did) w.state ≡ some e)
    (closed : e.access ≡ false) where
  get_denied :
      (key : Text)
      → cached did sam_did key w.state.cache ≡ none
      → ((get_db_value did sam_did key w).0 ≡ err (bake_error access_denied))
        × ((check_db_key_existence did sam_did key w).0 ≡ err (bake_error access_denied))
        × ((del_db_value did sam_did key w).0 ≡ err (bake_error access_denied))
  unfolding get_db_value check_db_key_existence del_db_value Dict.lookup
  get_denied key uncached = (ground arith, ground arith, ground arith)

  keys_denied :
      (offset len : ℕ)
      → ((get_db_keys did sam_did offset len w).0 ≡ err (bake_error access_denied))
        × ((truncate_db_keys did sam_did w).0 ≡ err (bake_error access_denied))
  unfolding get_db_keys truncate_db_keys Dict.lookup
  keys_denied offset len = (ground arith, ground arith)

-- Once an owner has withdrawn permission from an application, no query of it is answered from the
-- owner's stored data: reading, testing, deleting and listing end with "access denied", as does
-- truncating. Only what is cached escapes, so nothing may be cached for the key.
pub manage_db_access_denies :
    (did : Text) (sam_did : Option Text) (key : Text) (offset len : ℕ) (w : World)
    (e : HashTableData)
    → entry_of did (unwrap_or sam_did did) w.state ≡ some e
    → cached did sam_did key w.state.cache ≡ none
    → let w' = (manage_db_access did (unwrap_or sam_did did) false w).1 in
      let denied = err (bake_error access_denied) in
      ((get_db_value did sam_did key w').0 ≡ denied)
      × ((check_db_key_existence did sam_did key w').0 ≡ denied)
      × ((del_db_value did sam_did key w').0 ≡ denied)
      × ((get_db_keys did sam_did offset len w').0 ≡ denied)
      × ((truncate_db_keys did sam_did w').0 ≡ denied)
manage_db_access_denies did sam_did key offset len w e found uncached =
    rw (manage_db_access_lem did owner false w e found)
      (answers.0, answers.1, answers.2, listing.0, listing.1)
  where
    owner : Text
    owner = unwrap_or sam_did did

    e' : HashTableData
    e' = record e { access = false; access_modification_time = w.clock w.readings }

    w' : World
    w' = record w {
      state = replaced did owner e' w.state;
      sent =
          gossip_access_change false did owner (w.clock (w.readings + 1))
          ∷ set_network_sync_flag did
          ∷ w.sent;
      readings = w.readings + 1 + 1;
    }

    found' : entry_of did owner w'.state ≡ some e'
    found' =
        entry_of-save did owner did owner e' w.state ∙ ground (arith, eq_refl did, eq_refl owner)

    answers :
        ((get_db_value did sam_did key w').0 ≡ err (bake_error access_denied))
        × ((check_db_key_existence did sam_did key w').0 ≡ err (bake_error access_denied))
        × ((del_db_value did sam_did key w').0 ≡ err (bake_error access_denied))
    answers = get_denied did sam_did w' e' found' refl key uncached

    listing :
        ((get_db_keys did sam_did offset len w').0 ≡ err (bake_error access_denied))
        × ((truncate_db_keys did sam_did w').0 ≡ err (bake_error access_denied))
    listing = keys_denied did sam_did w' e' found' refl offset len
