-- ===== src/Contract/Access.antt =====
-- The access messages of database/contract/lib.rs.
use samaritan_db.Prelude.{
  Bool, false, not, none, some, List, arith, unwrap_or, is_some, [], filter, flat_map, ◌≡◌, ◌≢◌,
  ◌&&◌, ◌||◌, ◌∷◌, ◌++◌, if◌then◌else◌,
}
use samaritan_db.Text.{contains, contains-append, contains-filter, Text, eq_iff, eq_comm, ◌==◌}
use samaritan_db.Dict.{Dict}
use samaritan_db.Dict
use samaritan_db.Contract.State.{
  DbContract, Outcome, separator, restrict_application_access, unrestrict_application_access,
  entry_not_found,
}

unfoldable pub restrict : Text → Text → DbContract → Outcome
restrict user_did app_did c =
    if is_some (Dict.lookup user_did c.accounts)
    then (if is_some (Dict.lookup app_did c.accounts)
        then (let users_list : List Text = elim (Dict.lookup app_did c.restricted) [
          | some users ↦ users ++ user_did ∷ []
          | none ↦ user_did ∷ []
        ] in
            (
              record c { restricted = Dict.insert app_did users_list c.restricted },
              restrict_application_access user_did app_did ∷ [],
            ))
        else (c, entry_not_found app_did ∷ []))
    else (c, entry_not_found user_did ∷ [])

unfoldable pub unrestrict : Text → Text → DbContract → Outcome
unrestrict user_did app_did c = elim (Dict.lookup app_did c.restricted) [
  | some users ↦
      let users_list = filter (λ did. not (did == user_did)) users in
      (
        record c { restricted = Dict.insert app_did users_list c.restricted },
        unrestrict_application_access user_did app_did ∷ [],
      )
  | none ↦ (c, entry_not_found app_did ∷ [])
]

-- The first argument selects the entry, the second is looked for in it.
unfoldable pub is_restricted : Text → Text → DbContract → Bool
is_restricted did app_did c = elim (Dict.lookup did c.restricted) [
  | some entry ↦ contains entry app_did
  | none ↦ false
]

unfoldable pub get_restriction_list : Text → DbContract → Text
get_restriction_list app_did c = elim (Dict.lookup app_did c.restricted) [
  | some users ↦ flat_map (λ vector. vector ++ separator) users
  | none ↦ []
]

-- The users that have restricted an application.
abbrev pub blockers_of : Text → DbContract → List Text
blockers_of app_did c = unwrap_or (Dict.lookup app_did c.restricted) []

-- Both parties have an account.
abbrev pub both_known : Text → Text → DbContract → Bool
both_known user app c =
    is_some (Dict.lookup user c.accounts) && is_some (Dict.lookup app c.accounts)

-- A user is among an application's blockers after `restrict` exactly if they were before, or the
-- call was theirs for it and both have an account.
pub contains-restrict :
    (user app u a : Text) (c : DbContract)
    → contains (blockers_of a (restrict user app c).0) u
      ≡ ((both_known user app c && (app == a && user == u)) || contains (blockers_of a c) u)
unfolding restrict contains
contains-restrict user app u a c = ground (
  arith,
  eq_iff app a,
  contains-append (blockers_of app c) (user ∷ []) u,
  Dict.lookup-insert a app (blockers_of app c ++ user ∷ []) c.restricted,
  Dict.lookup-insert a app (user ∷ []) c.restricted,
)

-- A user is among an application's blockers after `unrestrict` exactly if they were before and the
-- call was not theirs for it.
pub contains-unrestrict :
    (user app u a : Text) (c : DbContract)
    → contains (blockers_of a (unrestrict user app c).0) u
      ≡ (contains (blockers_of a c) u && not (app == a && user == u))
unfolding unrestrict contains
contains-unrestrict user app u a c = ground (
  arith,
  eq_iff app a,
  eq_comm user u,
  contains-filter (λ (b : Text). not (b == user)) (blockers_of app c) u,
  Dict.lookup-insert a app (filter (λ (b : Text). not (b == user)) (blockers_of app c))
      c.restricted,
)

-- `is_restricted` reads the mapping with its arguments in the order that finds an application's
-- blockers under the application's name, while `restrict` is called with the user first.
pub is_restricted-contains :
    (did app_did : Text) (c : DbContract)
    → is_restricted did app_did c ≡ contains (blockers_of did c) app_did
unfolding is_restricted contains
is_restricted-contains did app_did c = ground arith

-- A restriction by a user of an application, asked for in the order (user, application), is not
-- seen: the answer is the one from before the call.
pub is_restricted_swapped :
    (user app : Text) (c : DbContract)
    → user ≢ app
    → is_restricted user app (restrict user app c).0 ≡ is_restricted user app c
is_restricted_swapped user app c ne = ground (
  arith,
  eq_iff app user,
  is_restricted-contains user app (restrict user app c).0,
  is_restricted-contains user app c,
  contains-restrict user app app user c,
)
