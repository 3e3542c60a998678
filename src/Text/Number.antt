-- ===== src/Text/Number.antt =====
-- `str::parse` into an unsigned integer, and `hex::encode` behind `str_to_hex`.
use samaritan_db.Prelude.{
  ℕ, Bool, Option, none, some, arith, ltb, leb, num_eq, is_empty, [], ◌+◌, ◌-◌, ◌*◌, ◌^◌, ◌<◌, ◌≡◌,
  ◌&&◌, ◌∷◌, if◌then◌else◌,
}
use samaritan_db.Text.Bytes.{Text}

abbrev pub is_digit : ℕ → Bool
is_digit b = leb b'0' b && leb b b'9'

-- The digit loop: a step that leaves the range of the type is an error.
unfoldable pub digits_from : ℕ → ℕ → Text → Option ℕ
digits_from limit acc [] = some acc
digits_from limit acc (b ∷ s) =
    let n : ℕ = acc * 10 + (b - b'0') in
    let rest = digits_from limit n s in if is_digit b && ltb n limit then rest else none

-- One `+` may stand in front; the empty text is an error.
unfoldable pub parse_uint : ℕ → Text → Option ℕ
unfolding digits_from
parse_uint limit [] = none
parse_uint limit (b ∷ s) =
    if num_eq b b'+'
    then (if is_empty s then none else digits_from limit 0 s)
    else digits_from limit 0 (b ∷ s)

abbrev pub u8_limit : ℕ
u8_limit = 2 ^ 8

abbrev pub u64_limit : ℕ
u64_limit = 2 ^ 64

-- A result of the loop fits the type.
digits_from-lt :
    (limit acc : ℕ) (s : Text) (n : ℕ) → acc < limit → digits_from limit acc s ≡ some n → n < limit
unfolding digits_from
digits_from-lt limit acc [] n h e = ground arith
digits_from-lt limit acc (b ∷ s) n h e =
    ground (arith, digits_from-lt limit (acc * 10 + (b - b'0')) s n)

pub parse_uint-lt :
    (limit : ℕ) (s : Text) (n : ℕ) → 0 < limit → parse_uint limit s ≡ some n → n < limit
unfolding parse_uint
parse_uint-lt limit [] n h e = cc
parse_uint-lt limit (b ∷ s) n h e =
    ground (arith, digits_from-lt limit 0 s n h, digits_from-lt limit 0 (b ∷ s) n h)
