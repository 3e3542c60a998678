-- ===== src/Database/Get/Visible.antt =====
-- What a client can read, and that `get_db_value` and `check_db_key_existence` answer by it.
use samaritan_db.Prelude.{
  refl, inl, inr, true, false, Option, none, some, arith, Option-cases, unwrap_or, is_some, ◌≡◌,
  ◌≢◌, ◌↔◌, if◌then◌else◌,
}
use samaritan_db.Text.{Text}
use samaritan_db.Dict.{Dict}
use samaritan_db.Database.DataMap
use samaritan_db.Database.Reply.{
  entry_not_found, Value, exists, ok, bake_response, bake_error, get, status, err,
}
use samaritan_db.Database.World.{World}
use samaritan_db.Database.View.{access_of, unit_of}
use samaritan_db.Database.State.{DbState, DataUnit}
use samaritan_db.Database.Get.{cached, check_db_key_existence, get_db_value}
use samaritan_db.Dict

abbrev pub readable : Option DataUnit → Option Text
readable none = none
readable (some u) = if u.access then some u.contents else none

-- The value that a client may read: the cached one of this owner, or else the stored one, if both
-- the owner and the unit permit it.
abbrev pub visible : Text → Option Text → Text → DbState → Option Text
visible did sam_did key s =
    let owner = unwrap_or sam_did did in
    elim (cached did sam_did key s.cache) [
      | some value ↦ some value
      | none ↦ if access_of did owner s then readable (unit_of did owner key s) else none
    ]

-- A value is read exactly if `visible` finds it.
pub get_db_value-visible :
    (did : Text) (sam_did : Option Text) (key value : Text) (w : World)
    → ((get_db_value did sam_did key w).0 ≡ ok (bake_response (get key value)))
      ↔ (visible did sam_did key w.state ≡ some value)
unfolding get_db_value bake_response bake_error DataMap.get_data DataMap.get_access_state
    Dict.lookup
get_db_value-visible did sam_did key value w = ground arith

-- The existence of a key is confirmed exactly if a value is visible under it.
pub check_db_key_existence-visible :
    (did : Text) (sam_did : Option Text) (key : Text) (w : World)
    → ((check_db_key_existence did sam_did key w).0 ≡ ok (bake_response (exists true)))
      ↔ (is_some (visible did sam_did key w.state) ≡ true)
unfolding check_db_key_existence bake_response bake_error DataMap.get_data DataMap.get_access_state
    Dict.lookup
check_db_key_existence-visible did sam_did key w = ground arith

-- The two queries agree: the existence of a key is denied exactly if a read ends with "not found",
-- it is confirmed exactly if a read gives a value, and any other refusal is the same for both.
pub check_db_key_existence-get :
    (did : Text) (sam_did : Option Text) (key : Text) (w : World)
    → (((check_db_key_existence did sam_did key w).0 ≡ ok (bake_response (exists false)))
        ↔ ((get_db_value did sam_did key w).0 ≡ err (bake_error entry_not_found)))
      × (((check_db_key_existence did sam_did key w).0 ≡ ok (bake_response (exists true))) ↔ (
          (value : Text) × ((get_db_value did sam_did key w).0
            ≡ ok (bake_response (get key value)))))
      × ((v : Value)
          → ((check_db_key_existence did sam_did key w).0 ≡ err v)
            ↔ (((get_db_value did sam_did key w).0 ≡ err v) × (status v ≢ some 404)))
unfolding check_db_key_existence get_db_value bake_response bake_error DataMap.get_data
    DataMap.get_access_state Dict.lookup
check_db_key_existence-get did sam_did key w = (
  ground arith,
  (
    λ h. elim (Option-cases (visible did sam_did key w.state)) [
      | inl hidden ↦
          absurd (ground (arith, (check_db_key_existence-visible did sam_did key w).0 h, hidden))
      | inr (value, seen) ↦ (value, (get_db_value-visible did sam_did key value w).1 seen)
    ],
    λ (value, h).
        (check_db_key_existence-visible did sam_did key w).1
          (ground (arith, (get_db_value-visible did sam_did key value w).0 h)),
  ),
  λ v. ground arith,
)

-- Reading changes nothing.
pub reads-eq :
    (did : Text) (sam_did : Option Text) (key : Text) (w : World)
    → ((get_db_value did sam_did key w).1 ≡ w) × ((check_db_key_existence did sam_did key w).1 ≡ w)
unfolding get_db_value check_db_key_existence
reads-eq did sam_did key w = (refl, refl)
