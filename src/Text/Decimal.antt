-- ===== src/Text/Decimal.antt =====
-- `Display` of an unsigned integer, and its reading by `str::parse`.
use samaritan_db.Prelude.{
  ℕ, zero, suc, refl, ap, inl, inr, true, false, some, arith, ltb, Bool-cases, is_empty, All,
  All-append, [], ◌+◌, ◌-◌, ◌*◌, ◌/◌, ◌%◌, ◌<◌, ◌≡◌, ◌∙◌, ◌∷◌, ◌++◌, if◌then◌else◌,
}
use samaritan_db.Text.Bytes.{Text}
use samaritan_db.Text.Number.{digits_from, parse_uint, is_digit}

-- The digits, on fuel: each step takes one off.
unfoldable pub decimal_from : ℕ → ℕ → Text
decimal_from zero n = []
decimal_from (suc f) n =
    let front = decimal_from f (n / 10) in
    if ltb n 10 then (n + b'0') ∷ [] else front ++ ((n % 10 + b'0') ∷ [])

last_digit :
    (limit m d : ℕ)
    → d < 10
    → m * 10 + d < limit
    → digits_from limit m ((d + b'0') ∷ []) ≡ some (m * 10 + d)
unfolding digits_from
last_digit limit m d h k = ground arith

unfoldable pub show_uint : ℕ → Text
unfolding decimal_from
show_uint n = decimal_from (suc n) n

digits_from-append :
    (limit acc n : ℕ) (s t : Text)
    → digits_from limit acc s ≡ some n
    → digits_from limit acc (s ++ t) ≡ digits_from limit n t
unfolding digits_from
digits_from-append limit acc n [] t h = ground arith
digits_from-append limit acc n (b ∷ s) t h =
    ground (arith, digits_from-append limit (acc * 10 + (b - b'0')) n s t)

-- Enough fuel prints the number, as digits that read as the number.
digits_from-decimal_from :
    (limit f n : ℕ) → n < f → n < limit → digits_from limit 0 (decimal_from f n) ≡ some n
unfolding decimal_from digits_from
digits_from-decimal_from limit zero n h k = elim h [ ]
digits_from-decimal_from limit (suc f) n h k = elim (Bool-cases (ltb n 10)) [
  | inl one ↦ rw one (last_digit limit 0 n (ground arith) (omega arith) ∙ ap some (omega arith))
  | inr more ↦
      let large : n / 10 < f = ground arith in
      rw more (
        digits_from-append limit 0 (n / 10) (decimal_from f (n / 10)) ((n % 10 + b'0') ∷ [])
          (digits_from-decimal_from limit f (n / 10) large (omega arith))
        ∙ last_digit limit (n / 10) (n % 10) (omega arith) (omega arith)
        ∙ ap some (omega arith))
]

-- What the text of a number is made of: it is not empty and all its bytes are digits.
abbrev pub IsNumeral : Text → Type 0
IsNumeral s = (is_empty s ≡ false) × All (λ b. is_digit b ≡ true) s

append-IsNumeral : (s : Text) (b : ℕ) → is_digit b ≡ true → IsNumeral s → IsNumeral (s ++ (b ∷ []))
append-IsNumeral [] b d h = (refl, (d, tt))
append-IsNumeral (a ∷ s) b d h =
    (refl, All-append (λ c. is_digit c ≡ true) (a ∷ s) (b ∷ []) h.1 (d, tt))

decimal_from-IsNumeral : (f n : ℕ) → n < f → IsNumeral (decimal_from f n)
unfolding decimal_from
decimal_from-IsNumeral zero n h = elim h [ ]
decimal_from-IsNumeral (suc f) n h = elim (Bool-cases (ltb n 10)) [
  | inl one ↦ rw one (refl, (ground arith, tt))
  | inr more ↦ rw more (
      append-IsNumeral (decimal_from f (n / 10)) (n % 10 + b'0') (ground arith)
        (decimal_from-IsNumeral f (n / 10) (ground arith)))
]

pub show_uint-IsNumeral : (n : ℕ) → IsNumeral (show_uint n)
unfolding show_uint
show_uint-IsNumeral n = decimal_from-IsNumeral (suc n) n (omega arith)

parse_uint-IsNumeral :
    (limit : ℕ) (s : Text) → IsNumeral s → parse_uint limit s ≡ digits_from limit 0 s
unfolding parse_uint
parse_uint-IsNumeral limit [] h = cc
parse_uint-IsNumeral limit (b ∷ s) h = ground arith

-- A number that fits the type is read back from its text.
pub parse_uint-show_uint : (limit n : ℕ) → n < limit → parse_uint limit (show_uint n) ≡ some n
unfolding show_uint
parse_uint-show_uint limit n h =
    parse_uint-IsNumeral limit (decimal_from (suc n) n)
      (decimal_from-IsNumeral (suc n) n (omega arith))
    ∙ digits_from-decimal_from limit (suc n) n (omega arith) h
