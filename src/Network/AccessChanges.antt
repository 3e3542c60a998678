-- ===== src/Network/AccessChanges.antt =====
-- `DataAccessManager` and `manage_data_access_changes` of database/src/network.rs.
pub mod Rounds
use samaritan_db.Prelude.{
  filter, true, false, not, List, unwrap_or, is_empty, [], ◌∷◌, ◌++◌, if◌then◌else◌,
}
use samaritan_db.Text.{Text, ◌==◌}
use samaritan_db.Dict.{Dict}
use samaritan_db.Database.World.{◌>>=◌, ◌>>◌}
use samaritan_db.Dict
use samaritan_db.Util.Texts.{disjoint_strings, extract_dids}
use samaritan_db.Database.World.{pure, M}
use samaritan_db.Database.Access.{manage_db_access}

-- `DataAccessManager` is its one field: the users whose data an application is recorded as barred
-- from.
abbrev pub DataAccessManager : Type 0
DataAccessManager = Dict (List Text)

abbrev pub recorded : Text → DataAccessManager → List Text
recorded did restrictions = unwrap_or (Dict.lookup did restrictions) []

-- The filter on names: an empty answered of the contract is read as one NUL byte.
unfoldable pub named : List Text → List Text
named dids = filter (λ item. not (item == (0 ∷ []))) dids

unfoldable pub disable_restrictions : Text → List Text → DataAccessManager → M DataAccessManager
disable_restrictions did [] restrictions = pure restrictions
disable_restrictions did (sam_did ∷ dids) restrictions = do
  manage_db_access did sam_did true
  disable_restrictions did dids (Dict.remove sam_did restrictions)

unfoldable pub enforce_restrictions : Text → List Text → M (Unit {0})
enforce_restrictions did [] = pure tt
enforce_restrictions did (sam_did ∷ dids) = do
  manage_db_access did sam_did false
  enforce_restrictions did dids

-- One round of the loop, for what the contract answers.
unfoldable pub manage_data_access_changes : Text → Text → DataAccessManager → M DataAccessManager
unfolding disable_restrictions enforce_restrictions
manage_data_access_changes did answered restrictions =
    let user_dids = named (extract_dids answered) in
    let liberal_dids = disjoint_strings user_dids (named (recorded did restrictions)) in
    do
      restrictions' ← disable_restrictions did liberal_dids restrictions
      let actor_dids = named (recorded did restrictions')
      let blocker_dids = disjoint_strings actor_dids user_dids
      if is_empty blocker_dids then pure restrictions' else (do
        enforce_restrictions did blocker_dids
        pure (Dict.insert did (actor_dids ++ blocker_dids) restrictions'))
