-- ===== src/Dict.antt =====
-- `std::collections::HashMap` with text keys: an association list whose order is the order of
-- iteration, which the standard library leaves open. Models no code of the repository.
use samaritan_db.Prelude.{
  refl, inl, inr, Bool, Option, none, some, List, map, arith, Bool-cases, All, [], ◌≡◌, ◌∷◌,
  if◌then◌else◌,
}
use samaritan_db.Text.{Text, eq_iff, ◌==◌}
use mathlib.Core.Path.{subst}

abbrev pub Dict {ℓ} : Type ℓ → Type ℓ
Dict V = List (Text × V)

module _ {ℓ} {V : Type ℓ} where
  unfoldable pub lookup : Text → Dict V → Option V
  lookup k [] = none
  lookup k ((j, v) ∷ m) = if j == k then some v else lookup k m

  unfoldable pub insert : Text → V → Dict V → Dict V
  insert k v [] = (k, v) ∷ []
  insert k v ((j, w) ∷ m) = if j == k then (k, v) ∷ m else (j, w) ∷ insert k v m

  unfoldable pub remove : Text → Dict V → Dict V
  remove k [] = []
  remove k ((j, w) ∷ m) = let rest = remove k m in if j == k then rest else (j, w) ∷ rest

  -- `HashMap::retain`, for a test that reads the value only.
  unfoldable pub retain : (V → Bool) → Dict V → Dict V
  retain p [] = []
  retain p ((j, w) ∷ m) = let rest = retain p m in if p w then (j, w) ∷ rest else rest

  abbrev pub keys : Dict V → List Text
  keys = map (λ e. e.0)

  -- No key is listed twice.
  abbrev pub IsMap : Dict V → Type ℓ
  IsMap [] = Unit
  IsMap ((k, v) ∷ m) = (lookup k m ≡ none) × IsMap m

  pub lookup-nil : (k : Text) → lookup k [] ≡ none
  unfolding lookup
  lookup-nil k = refl

  pub lookup-insert :
      (j k : Text) (v : V) (m : Dict V)
      → lookup j (insert k v m) ≡ (if k == j then some v else lookup j m)
  unfolding lookup insert
  lookup-insert j k v [] = refl
  lookup-insert j k v ((i, w) ∷ m) =
      ground (arith, eq_iff k j, eq_iff i k, eq_iff i j, lookup-insert j k v m)

  pub lookup-remove :
      (j k : Text) (m : Dict V) → lookup j (remove k m) ≡ (if k == j then none else lookup j m)
  unfolding lookup remove
  lookup-remove j k [] = ground arith
  lookup-remove j k ((i, w) ∷ m) =
      ground (arith, eq_iff k j, eq_iff i k, eq_iff i j, lookup-remove j k m)

  -- What a value becomes under a filter.
  abbrev pub keep : (V → Bool) → Option V → Option V
  keep p none = none
  keep p (some v) = if p v then some v else none

  pub lookup-retain-none :
      (j : Text) (p : V → Bool) (m : Dict V) → lookup j m ≡ none → lookup j (retain p m) ≡ none
  unfolding lookup retain
  lookup-retain-none j p [] h = refl
  lookup-retain-none j p ((i, w) ∷ m) h = ground (arith, lookup-retain-none j p m)

  pub lookup-retain :
      (j : Text) (p : V → Bool) (m : Dict V) → IsMap m → lookup j (retain p m) ≡ keep p (lookup j m)
  unfolding lookup retain
  lookup-retain j p [] h = refl
  lookup-retain j p ((i, w) ∷ m) h =
      ground (arith, eq_iff i j, lookup-retain j p m h.1, lookup-retain-none j p m)

  pub insert-IsMap : (k : Text) (v : V) (m : Dict V) → IsMap m → IsMap (insert k v m)
  unfolding lookup insert
  insert-IsMap k v [] h = (refl, tt)
  insert-IsMap k v ((i, w) ∷ m) h =
      ground (arith, eq_iff i k, eq_iff k i, insert-IsMap k v m h.1, lookup-insert i k v m)

  pub remove-IsMap : (k : Text) (m : Dict V) → IsMap m → IsMap (remove k m)
  unfolding remove
  remove-IsMap k [] h = tt
  remove-IsMap k ((i, w) ∷ m) h = ground (arith, remove-IsMap k m h.1, lookup-remove i k m)

  pub retain-IsMap : (p : V → Bool) (m : Dict V) → IsMap m → IsMap (retain p m)
  unfolding retain
  retain-IsMap p [] h = tt
  retain-IsMap p ((i, w) ∷ m) h = ground (arith, retain-IsMap p m h.1, lookup-retain-none i p m)

  -- A property of every value.
  abbrev pub Every {κ} : (V → Type κ) → Dict V → Type κ
  Every P = All (λ e. P e.1)

  pub Every-lookup {κ} :
      (P : V → Type κ) (k : Text) (m : Dict V) {v : V} → Every P m → lookup k m ≡ some v → P v
  unfolding lookup
  Every-lookup P k [] h e = cc
  Every-lookup P k ((i, w) ∷ m) {v} h e = elim (Bool-cases (i == k)) [
    | inl here ↦ let same : w ≡ v = ground arith in subst P same h.0
    | inr there ↦ Every-lookup P k m h.1 (rw there at e)
  ]

  pub Every-insert {κ} :
      (P : V → Type κ) (k : Text) (v : V) (m : Dict V) → P v → Every P m → Every P (insert k v m)
  unfolding insert
  Every-insert P k v [] p h = (p, tt)
  Every-insert P k v ((i, w) ∷ m) p h = elim (Bool-cases (i == k)) [
    | inl here ↦ rw here (p, h.1)
    | inr there ↦ rw there (h.0, Every-insert P k v m p h.1)
  ]

  pub Every-remove {κ} : (P : V → Type κ) (k : Text) (m : Dict V) → Every P m → Every P (remove k m)
  unfolding remove
  Every-remove P k [] h = tt
  Every-remove P k ((i, w) ∷ m) h = elim (Bool-cases (i == k)) [
    | inl here ↦ rw here (Every-remove P k m h.1)
    | inr there ↦ rw there (h.0, Every-remove P k m h.1)
  ]
