-- ===== src/Text/Split.antt =====
-- `str::split` with a text as separator, and `[String]::join`.
use samaritan_db.Prelude.{
  sym, ℕ, zero, suc, refl, ap, inl, inr, Option, none, some, List, append_assoc, append-nil, arith,
  num_eq, Bool-cases, Option-cases, length, All, length-append, [], ◌+◌, ◌<◌, ◌≡◌, ◌∙◌, ◌≢◌, ◌∷◌,
  ◌++◌, if◌then◌else◌,
}
use samaritan_db.Text.Bytes.{Text}
use mathlib.Core.Path.{ap₂}

-- The rest of the text behind the pattern, if the text begins with it.
unfoldable pub strip_prefix : Text → Text → Option Text
strip_prefix [] s = some s
strip_prefix (a ∷ p) [] = none
strip_prefix (a ∷ p) (b ∷ s) = if num_eq a b then strip_prefix p s else none

-- Puts a byte in front of the first piece.
abbrev pub push_front : ℕ → List Text → List Text
push_front b [] = (b ∷ []) ∷ []
push_front b (piece ∷ pieces) = (b ∷ piece) ∷ pieces

-- The pieces of the text, on fuel: each step takes a byte or a separator. With a separator that
-- is not empty and fuel above the length, the fuel does not run out.
unfoldable pub split_from : ℕ → Text → Text → List Text
split_from zero sep s = [] ∷ []
split_from (suc f) sep [] = [] ∷ []
split_from (suc f) sep (b ∷ s) = elim (strip_prefix sep (b ∷ s)) [
  | some rest ↦ [] ∷ split_from f sep rest
  | none ↦ push_front b (split_from f sep s)
]

unfoldable pub split : Text → Text → List Text
unfolding split_from strip_prefix
split sep s = split_from (suc (length s)) sep s

-- `pieces.join(sep)`
unfoldable pub join : Text → List Text → Text
join sep [] = []
join sep (p ∷ []) = p
join sep (p ∷ q ∷ ps) = p ++ (sep ++ join sep (q ∷ ps))

-- A piece that is itself joined pieces joins as they do.
pub join-join :
    (sep y : Text) (ys : List Text) (z : Text) (zs : List Text)
    → join sep (join sep (y ∷ ys) ∷ z ∷ zs) ≡ join sep (y ∷ (ys ++ z ∷ zs))
unfolding join
join-join sep y [] z zs = refl
join-join sep y (r ∷ rs) z zs =
    append_assoc y (sep ++ join sep (r ∷ rs)) (sep ++ join sep (z ∷ zs))
    ∙ ap (◌++◌ y) (
        append_assoc sep (join sep (r ∷ rs)) (sep ++ join sep (z ∷ zs))
        ∙ ap (◌++◌ sep) (join-join sep r rs z zs))

strip_prefix-length : (p s r : Text) → strip_prefix p s ≡ some r → length r + length p ≡ length s
unfolding strip_prefix
strip_prefix-length [] s r h = ground arith
strip_prefix-length (a ∷ p) [] r h = cc
strip_prefix-length (a ∷ p) (b ∷ s) r h = ground (arith, strip_prefix-length p s r)

-- Taking off the prefix undoes putting it on, and is the only way to succeed.
pub strip_prefix-append : (p s : Text) → strip_prefix p (p ++ s) ≡ some s
unfolding strip_prefix
strip_prefix-append [] s = refl
strip_prefix-append (a ∷ p) s = ground (arith, strip_prefix-append p s)

pub append-strip_prefix : (p s r : Text) → strip_prefix p s ≡ some r → s ≡ p ++ r
unfolding strip_prefix
append-strip_prefix [] s r h = ground arith
append-strip_prefix (a ∷ p) [] r h = cc
append-strip_prefix (a ∷ p) (b ∷ s) r h = ground (arith, append-strip_prefix p s r)

-- The joined pieces are the text again.
push_front-join :
    (b : ℕ) (sep : Text) (ps : List Text) → join sep (push_front b ps) ≡ b ∷ join sep ps
unfolding join
push_front-join b sep [] = refl
push_front-join b sep (p ∷ []) = refl
push_front-join b sep (p ∷ q ∷ ps) = refl

pub split_lem : (sep s : Text) → split sep s ≡ split_from (suc (length s)) sep s
unfolding split
split_lem sep s = refl

module _ (c : ℕ) (q : Text) where
  -- With a separator that is not empty, fuel above the length is enough: more changes nothing.
  pub split_from-fuel :
      (f g : ℕ) (s : Text)
      → length s < f
      → length s < g
      → split_from f (c ∷ q) s ≡ split_from g (c ∷ q) s
  unfolding split_from
  split_from-fuel zero g s h k = absurd (omega arith)
  split_from-fuel (suc f) zero s h k = absurd (omega arith)
  split_from-fuel (suc f) (suc g) [] h k = refl
  split_from-fuel (suc f) (suc g) (b ∷ s) h k = elim (Option-cases (strip_prefix (c ∷ q) (b ∷ s))) [
    | inl e ↦
        rw (e, split_from) (ap (push_front b) (split_from-fuel f g s (omega arith) (omega arith)))
    | inr (r, e) ↦
        let short : length r + length (c ∷ q) ≡ length (b ∷ s) =
          strip_prefix-length (c ∷ q) (b ∷ s) r e in
        rw (e, split_from) (ap (◌∷◌ []) (split_from-fuel f g r (omega arith) (omega arith)))
  ]

  -- Puts a text in front of the first piece.
  abbrev pub prepend : Text → List Text → List Text
  prepend [] ps = ps
  prepend (b ∷ p) ps = push_front b (prepend p ps)

  prepend-cons : (p r : Text) (ps : List Text) → prepend p (r ∷ ps) ≡ (p ++ r) ∷ ps
  prepend-cons [] r ps = refl
  prepend-cons (b ∷ p) r ps = rw (prepend-cons p r ps)

  -- A text free of the separator's first byte is no separator, and stays in the first piece.
  split_from-free :
      (f : ℕ) (p s : Text)
      → All (λ b. b ≢ c) p
      → split_from (length p + f) (c ∷ q) (p ++ s) ≡ prepend p (split_from f (c ∷ q) s)
  unfolding split_from strip_prefix
  split_from-free f [] s h = ap (λ n. split_from n (c ∷ q) s) (omega arith)
  split_from-free f (b ∷ p) s h =
      let step : length (b ∷ p) + f ≡ suc (length p + f) = omega arith in
      rw step (ground (arith, split_from-free f p s h.1))

  split_from-separator :
      (f : ℕ) (s : Text) → split_from (suc f) (c ∷ q) ((c ∷ q) ++ s) ≡ [] ∷ split_from f (c ∷ q) s
  unfolding split_from
  split_from-separator f s = rw (strip_prefix-append (c ∷ q) s, split_from)

  split_from-nonempty :
      (f : ℕ) (sep s : Text) → (p : Text) × (ps : List Text) × (split_from f sep s ≡ p ∷ ps)
  unfolding split_from
  split_from-nonempty zero sep s = ([], [], refl)
  split_from-nonempty (suc f) sep [] = ([], [], refl)
  split_from-nonempty (suc f) sep (b ∷ s) = elim (Option-cases (strip_prefix sep (b ∷ s))) [
    | inl e ↦
        let (p, ps, rest) = split_from-nonempty f sep s in (b ∷ p, ps, rw (e, split_from) (rw rest))
    | inr (r, e) ↦ ([], split_from f sep r, rw (e, split_from))
  ]

  join-split_from : (f : ℕ) (s : Text) → length s < f → join (c ∷ q) (split_from f (c ∷ q) s) ≡ s
  unfolding split_from join
  join-split_from zero s h = absurd (omega arith)
  join-split_from (suc f) [] h = refl
  join-split_from (suc f) (b ∷ s) h = elim (Option-cases (strip_prefix (c ∷ q) (b ∷ s))) [
    | inl e ↦
        rw (e, split_from)
          (push_front-join b (c ∷ q) (split_from f (c ∷ q) s)
            ∙ ap (◌∷◌ b) (join-split_from f s (omega arith)))
    | inr (r, e) ↦
        let short : length r + length (c ∷ q) ≡ length (b ∷ s) =
          strip_prefix-length (c ∷ q) (b ∷ s) r e in
        let (p, ps, more) = split_from-nonempty f (c ∷ q) r in
        let ih : join (c ∷ q) (split_from f (c ∷ q) r) ≡ r = join-split_from f r (omega arith) in
        rw (e, split_from)
          (rw more
            (ap (◌++◌ (c ∷ q)) (rw more at ih) ∙ sym (append-strip_prefix (c ∷ q) (b ∷ s) r e)))
  ]

  -- One piece free of the separator's first byte, then the separator.
  pub split-piece :
      (p s : Text) → All (λ b. b ≢ c) p → split (c ∷ q) (p ++ ((c ∷ q) ++ s)) ≡ p ∷ split (c ∷ q) s
  split-piece p s h =
      split_lem (c ∷ q) (p ++ t)
      ∙ ap (λ n. split_from n (c ∷ q) (p ++ t)) (omega (arith, length-append p t))
      ∙ split_from-free (suc (length t)) p t h
      ∙ ap (prepend p) (split_from-separator (length t) s)
      ∙ prepend-cons p [] (split_from (length t) (c ∷ q) s)
      ∙ ap (◌∷◌ (p ++ [])) (split_from-fuel (length t) (suc (length s)) s fits (omega arith))
      ∙ ap₂ ◌∷◌ (append-nil p) (sym (split_lem (c ∷ q) s))
    where
      t : Text
      t = (c ∷ q) ++ s

      fits : length s < length ((c ∷ q) ++ s)
      fits = omega (arith, length-append q s)

  -- One piece, and no separator.
  pub split-last : (p : Text) → All (λ b. b ≢ c) p → split (c ∷ q) p ≡ p ∷ []
  unfolding split_from
  split-last p h =
      ap (split (c ∷ q)) (sym (append-nil p))
      ∙ split_lem (c ∷ q) (p ++ [])
      ∙ ap (λ n. split_from n (c ∷ q) (p ++ [])) count
      ∙ split_from-free 1 p [] h
      ∙ prepend-cons p [] []
      ∙ ap (λ r. r ∷ []) (append-nil p)
    where
      count : suc (length (p ++ [])) ≡ length p + 1
      count = omega (arith, length-append p [])

  -- The pieces, joined, are the text.
  pub join-split : (s : Text) → join (c ∷ q) (split (c ∷ q) s) ≡ s
  join-split s = rw split_lem (join-split_from (suc (length s)) s (omega arith))

  -- Pieces free of the separator's first byte come back from their join.
  pub split-join :
      (p : Text) (ps : List Text)
      → All (All (λ b. b ≢ c)) (p ∷ ps)
      → split (c ∷ q) (join (c ∷ q) (p ∷ ps)) ≡ p ∷ ps
  unfolding join
  split-join p [] h = split-last p h.0
  split-join p (r ∷ rs) h =
      split-piece p (join (c ∷ q) (r ∷ rs)) h.0 ∙ ap (◌∷◌ p) (split-join r rs h.1)

-- Pieces between single bytes are free of that byte.
split_from-pieces :
    (c : ℕ) (f : ℕ) (s : Text) → length s < f → All (All (λ b. b ≢ c)) (split_from f (c ∷ []) s)
unfolding split_from strip_prefix
split_from-pieces c zero s h = absurd (omega arith)
split_from-pieces c (suc f) [] h = (tt, tt)
split_from-pieces c (suc f) (b ∷ s) h = elim (Bool-cases (num_eq c b)) [
  | inl cut ↦ rw (cut, split_from) (tt, split_from-pieces c f s (omega arith))
  | inr other ↦
      rw (other, split_from)
        (pushed (split_from f (c ∷ []) s) (split_from-pieces c f s (omega arith)) (ground arith))
]
  where
    pushed :
        (ps : List Text)
        → All (All (λ b. b ≢ c)) ps
        → b ≢ c
        → All (All (λ b. b ≢ c)) (push_front b ps)
    pushed [] a n = ((n, tt), tt)
    pushed (p ∷ ps) a n = ((n, a.0), a.1)

pub split-pieces : (c : ℕ) (s : Text) → All (All (λ b. b ≢ c)) (split (c ∷ []) s)
split-pieces c s = rw split_lem (split_from-pieces c (suc (length s)) s (omega arith))
