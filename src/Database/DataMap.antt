-- ===== src/Database/DataMap.antt =====
-- The methods of `DataMap` in database/src/prelude.rs.
use samaritan_db.Prelude.{
  ℕ, Bool, true, Option, none, some, List, map, unwrap_or, take, drop, [], ◌≡◌, if◌then◌else◌,
}
use samaritan_db.Text.{Text, ◌==◌}
use samaritan_db.Dict.{Dict, IsMap}
use samaritan_db.Dict
use samaritan_db.Database.State.{DataUnit, DataMap, default_unit}

-- `insert`, with the reading of the clock that it makes.
unfoldable pub insert : Text → Text → ℕ → DataMap → DataMap
insert key value now m =
    let data_unit : DataUnit = unwrap_or (Dict.lookup key m) default_unit in
    Dict.insert key (record data_unit { contents = value; access = true; write_time = now }) m

unfoldable pub delete_data_entry : Text → DataMap → DataMap
delete_data_entry key m = Dict.remove key m

unfoldable pub get_data : Text → DataMap → Option Text
get_data key m = elim (Dict.lookup key m) [ some u ↦ some u.contents | none ↦ none ]

unfoldable pub get_access_state : Text → DataMap → Option Bool
get_access_state key m = elim (Dict.lookup key m) [ some u ↦ some u.access | none ↦ none ]

unfoldable pub get_keys : ℕ → ℕ → DataMap → List Text
get_keys offset len m = map (λ e. e.0) (take len (drop offset m))

unfoldable pub clear : DataMap → DataMap
clear m = []

-- The unit that a write leaves.
abbrev pub written : Text → ℕ → DataUnit
written value now = record { contents = value; access = true; write_time = now }

pub lookup-insert :
    (j key value : Text) (now : ℕ) (m : DataMap)
    → Dict.lookup j (insert key value now m)
      ≡ (if key == j then some (written value now) else Dict.lookup j m)
unfolding insert
lookup-insert j key value now m = Dict.lookup-insert j key (written value now) m

pub insert-IsMap :
    (key value : Text) (now : ℕ) (m : DataMap) → IsMap m → IsMap (insert key value now m)
unfolding insert
insert-IsMap key value now m h = Dict.insert-IsMap key (written value now) m h
