-- ===== src/Network/AccessChanges/Rounds.antt =====
-- What the rounds of `manage_data_access_changes` do to permissions and to the record.
use samaritan_db.Prelude.{
  refl, ap, inl, inr, Bool, true, false, not, List, arith, Bool-cases, Option-cases, is_some,
  is_empty, [], ◌≡◌, ◌&&◌, ◌||◌, ◌∷◌, ◌++◌, if◌then◌else◌,
}
use samaritan_db.Text.{contains, contains-append, contains-filter, Text, eq_iff, eq_refl, ◌==◌}
use samaritan_db.Dict.{Dict}
use samaritan_db.Util.Texts.{extract_dids, disjoint_strings, contains-disjoint_strings}
use samaritan_db.Dict
use samaritan_db.Network.AccessChanges.{
  enforce_restrictions, DataAccessManager, disable_restrictions, recorded,
  manage_data_access_changes, named,
}
use samaritan_db.Database.Access.Effect.{manage_db_access_unknown, manage_db_access_lem}
use samaritan_db.Database.World.{World}
use samaritan_db.Database.View.{access_of-replaced, access_of, entry_of-save, entry_of}
use samaritan_db.Database.State.{HashTableData}
use samaritan_db.Database.Access.{manage_db_access}

-- Whether an owner is known, and may be read.
abbrev is_known : Text → Text → World → Bool
is_known did o w = is_some (entry_of did o w.state)

-- A change of permission leaves everyone known who was, and sets the permission of its owner alone.
changes :
    (did owner : Text) (perm : Bool) (o : Text) (w : World)
    → is_known did o w ≡ true
    → let w' = (manage_db_access did owner perm w).1 in
      (is_known did o w' ≡ true)
      × (access_of did o w'.state ≡ (if owner == o then perm else access_of did o w.state))
changes did owner perm o w known = elim (Option-cases (entry_of did owner w.state)) [
  | inl missing ↦
      rw (manage_db_access_unknown did owner perm w missing) (known, ground (arith, eq_iff owner o))
  | inr (e, found) ↦
      let e' : HashTableData = record e {
        access = perm;
        access_modification_time = w.clock w.readings;
      } in
      rw (manage_db_access_lem did owner perm w e found) (
        ground (arith, entry_of-save did owner did o e' w.state, known),
        ground (arith, access_of-replaced did owner e' did o w.state, eq_refl did),
      )
]

enforce_changes :
    (did : Text) (dids : List Text) (o : Text) (w : World)
    → is_known did o w ≡ true
    → let w' = (enforce_restrictions did dids w).1 in
      (is_known did o w' ≡ true)
      × (access_of did o w'.state ≡ (if contains dids o then false else access_of did o w.state))
unfolding enforce_restrictions contains
enforce_changes did [] o w known = (known, refl)
enforce_changes did (d ∷ dids) o w known =
    let once = changes did d false o w known in
    let rest = enforce_changes did dids o (manage_db_access did d false w).1 once.0 in
    ground (arith, once, rest)

disable_changes :
    (did : Text) (dids : List Text) (r : DataAccessManager) (o : Text) (w : World)
    → is_known did o w ≡ true
    → let w' = (disable_restrictions did dids r w).1 in
      (is_known did o w' ≡ true)
      × (access_of did o w'.state ≡ (if contains dids o then true else access_of did o w.state))
unfolding disable_restrictions contains
disable_changes did [] r o w known = (known, refl)
disable_changes did (d ∷ dids) r o w known =
    let once = changes did d true o w known in
    let rest =
      disable_changes did dids (Dict.remove d r) o (manage_db_access did d true w).1 once.0 in
    ground (arith, once, rest)

-- The record of an application stays as it is while restrictions are lifted, unless a user bears
-- the application's name.
disable_records :
    (did : Text) (dids : List Text) (r : DataAccessManager) (w : World)
    → contains dids did ≡ false
    → recorded did (disable_restrictions did dids r w).0 ≡ recorded did r
unfolding disable_restrictions contains
disable_records did [] r w h = refl
disable_records did (d ∷ dids) r w h =
    let rest = disable_records did dids (Dict.remove d r) (manage_db_access did d true w).1 in
    ground (arith, rest, Dict.lookup-remove did d r)

contains-empty : (xs : List Text) (a : Text) → is_empty xs ≡ true → contains xs a ≡ false
unfolding contains
contains-empty [] a h = refl
contains-empty (x ∷ xs) a h = cc

contains-named :
    (xs : List Text) (a : Text) → contains (named xs) a ≡ (contains xs a && not (a == (0 ∷ [])))
unfolding named
contains-named xs a = contains-filter (λ item. not (item == (0 ∷ []))) xs a

-- What the contract's answer asks for, and what is recorded, as a round reads them.
abbrev pub asked : Text → Text → Bool
asked answered o = contains (named (extract_dids answered)) o

abbrev pub barred : Text → DataAccessManager → Text → Bool
barred did r o = contains (named (recorded did r)) o

module _ (did answered : Text) (r : DataAccessManager) (w : World)
    (apart : barred did r did ≡ false) where
  liberal : List Text
  liberal = disjoint_strings (named (extract_dids answered)) (named (recorded did r))

  same_record : recorded did (disable_restrictions did liberal r w).0 ≡ recorded did r
  unfolding liberal
  same_record = disable_records did liberal r w (
      ground (
        arith,
        contains-disjoint_strings (named (extract_dids answered)) (named (recorded did r)) did,
      ))

  -- The record afterwards: what it held, and what is asked for.
  records :
      (o : Text)
      → barred did (manage_data_access_changes did answered r w).0 o
        ≡ (barred did r o || asked answered o)
  unfolding manage_data_access_changes liberal
  records o =
      let r1 = (disable_restrictions did liberal r w).0 in
      let asks = named (extract_dids answered) in
      let before = named (recorded did r) in
      let actors = named (recorded did r1) in
      let blockers = disjoint_strings actors asks in
      let kept : actors ≡ before = ap named same_record in
      let newly = contains-disjoint_strings actors asks o in
      let held : contains actors o ≡ contains before o = ap (λ xs. contains xs o) kept in
      elim (Bool-cases (is_empty blockers)) [
        | inl idle ↦ ground (arith, newly, held, contains-empty blockers o idle)
        | inr busy ↦ ground (
          arith,
          newly,
          held,
          Dict.lookup-insert did did (actors ++ blockers) r1,
          eq_refl did,
          contains-append actors blockers o,
          contains-named (actors ++ blockers) o,
          contains-named (recorded did r1) o,
          contains-named (extract_dids answered) o,
        )
      ]

  -- For a user who is known to the application, a round bars the application from the user's data
  -- if the contract asks for it and it is not yet recorded, and admits it again if it is recorded
  -- and no longer asked for. The record holds afterwards what it held before and what is asked for:
  -- a restriction that is lifted stays recorded. (No user on record bears the application's name.)
  pub manage_data_access_changes_lem :
      (o : Text)
      → is_some (entry_of did o w.state) ≡ true
      → let (r', w') = manage_data_access_changes did answered r w in
        (access_of did o w'.state ≡ (
          if asked answered o
          then (if barred did r o then access_of did o w.state else false)
          else (if barred did r o then true else access_of did o w.state)))
        × ((barred did r' o ≡ (barred did r o || asked answered o))
            × (is_some (entry_of did o w'.state) ≡ true))
  unfolding manage_data_access_changes liberal
  manage_data_access_changes_lem o known =
      let r1 = (disable_restrictions did liberal r w).0 in
      let w1 = (disable_restrictions did liberal r w).1 in
      let asks = named (extract_dids answered) in
      let before = named (recorded did r) in
      let actors = named (recorded did r1) in
      let blockers = disjoint_strings actors asks in
      let d = disable_changes did liberal r o w known in
      let e = enforce_changes did blockers o w1 d.0 in
      let kept : actors ≡ before = ap named same_record in
      let lifted = contains-disjoint_strings asks before o in
      let newly = contains-disjoint_strings actors asks o in
      let held : contains actors o ≡ contains before o = ap (λ xs. contains xs o) kept in
      elim (Bool-cases (is_empty blockers)) [
        | inl idle ↦
            ground (arith, d, lifted, newly, held, records o, contains-empty blockers o idle)
        | inr busy ↦ ground (arith, d, e, lifted, newly, held, records o)
      ]

-- A user whose restriction has been lifted cannot restrict the application again: the round that
-- lifts it admits the application, and the next round, although the contract asks for the
-- restriction anew, leaves it admitted. (The user is known to the application, and no user on
-- record or in the first answer bears the application's name.)
pub manage_data_access_changes_forgets :
    (did a1 a2 : Text) (r : DataAccessManager) (w : World) (o : Text)
    → barred did r did ≡ false
    → asked a1 did ≡ false
    → is_some (entry_of did o w.state) ≡ true
    → barred did r o ≡ true
    → asked a1 o ≡ false
    → asked a2 o ≡ true
    → let (r1, w1) = manage_data_access_changes did a1 r w in
      let (r2, w2) = manage_data_access_changes did a2 r1 w1 in
      (access_of did o w1.state ≡ true) × (access_of did o w2.state ≡ true)
manage_data_access_changes_forgets did a1 a2 r w o apart1 apart2 known on_record lifted again =
    let first = manage_data_access_changes_lem did a1 r w apart1 o known in
    let r1 = (manage_data_access_changes did a1 r w).0 in
    let w1 = (manage_data_access_changes did a1 r w).1 in
    let apart : barred did r1 did ≡ false = ground (arith, records did a1 r w apart1 did) in
    let second = manage_data_access_changes_lem did a2 r1 w1 apart o first.1.1 in
    ground (arith, first, second)
