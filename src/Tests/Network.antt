-- ===== src/Tests/Network.antt =====
-- Rounds of the access monitor at a concrete node.
use samaritan_db.Dict
use samaritan_db.Text.Split.{strip_prefix, split, split_from}
use samaritan_db.Util.Texts.{extract_dids}
use samaritan_db.Network.AccessChanges.Rounds.{
  barred, manage_data_access_changes_forgets, manage_data_access_changes_lem,
}
use samaritan_db.Network.AccessChanges.{DataAccessManager, named, manage_data_access_changes}
use samaritan_db.Database.View.{access_of, entry_of}
use samaritan_db.Tests.Data.{sam, node, app}
use samaritan_db.Prelude.{filter, refl, true, false, is_some, [], ◌≡◌, ◌∷◌}
use samaritan_db.Text.{contains, Text, codes, ◌==◌}
use samaritan_db.Dict.{Dict}

-- The contract's answers: nobody, and one user.
abbrev nobody : Text
nobody = []

abbrev only_sam : Text
only_sam = codes "sam$$$"

abbrev sam_barred : DataAccessManager
sam_barred = (app, sam ∷ []) ∷ []

manage_data_access_changes_lem_example :
    let (r', w') = manage_data_access_changes app only_sam [] node in
    (access_of app sam w'.state ≡ false)
    × ((barred app r' sam ≡ true) × (is_some (entry_of app sam w'.state) ≡ true))
unfolding Dict.lookup ◌==◌ named extract_dids contains filter split split_from strip_prefix
manage_data_access_changes_lem_example =
    manage_data_access_changes_lem app only_sam [] node refl sam refl

manage_data_access_changes_forgets_example :
    let (r1, w1) = manage_data_access_changes app nobody sam_barred node in
    let (r2, w2) = manage_data_access_changes app only_sam r1 w1 in
    (access_of app sam w1.state ≡ true) × (access_of app sam w2.state ≡ true)
unfolding Dict.lookup ◌==◌ named extract_dids contains filter split split_from strip_prefix
manage_data_access_changes_forgets_example =
    manage_data_access_changes_forgets app nobody only_sam sam_barred node sam refl refl refl refl
      refl refl
