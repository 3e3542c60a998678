-- ===== src/Text/Utf8.antt =====
-- `String::from_utf8`: the byte sequences that are well-formed UTF-8.
use samaritan_db.Prelude.{
  ℕ, zero, suc, refl, Bool, true, false, Option, none, some, arith, ltb, leb, num_eq, All, [], ◌<◌,
  ◌≡◌, ◌&&◌, ◌∷◌, if◌then◌else◌,
}
use samaritan_db.Text.Bytes.{Text}

-- What a first byte asks for: how many bytes follow it, and the range of the next one.
unfoldable pub lead : ℕ → Option (ℕ × ℕ × ℕ)
lead b =
    if ltb b 0x80
    then some (0, 0x80, 0xBF)
    else (if ltb b 0xC2
        then none
        else (if ltb b 0xE0
            then some (1, 0x80, 0xBF)
            else (if num_eq b 0xE0
                then some (2, 0xA0, 0xBF)
                else (if num_eq b 0xED
                    then some (2, 0x80, 0x9F)
                    else (if ltb b 0xF0
                        then some (2, 0x80, 0xBF)
                        else (if num_eq b 0xF0
                            then some (3, 0x90, 0xBF)
                            else (if ltb b 0xF4
                                then some (3, 0x80, 0xBF)
                                else (if num_eq b 0xF4 then some (3, 0x80, 0x8F) else none))))))))

-- The check, with the bytes still wanted and the range of the next one.
unfoldable pub utf8_from : ℕ → ℕ → ℕ → Text → Bool
unfolding lead
utf8_from zero lo hi [] = true
utf8_from (suc n) lo hi [] = false
utf8_from zero lo hi (b ∷ s) = elim (lead b) [
  | some (n, lo', hi') ↦ utf8_from n lo' hi' s
  | none ↦ false
]
utf8_from (suc n) lo hi (b ∷ s) = let rest = utf8_from n 0x80 0xBF s in leb lo b && leb b hi && rest

unfoldable pub is_utf8 : Text → Bool
unfolding utf8_from
is_utf8 = utf8_from 0 0x80 0xBF

unfoldable pub from_utf8 : Text → Option Text
unfolding is_utf8
from_utf8 s = if is_utf8 s then some s else none

utf8_from-ascii : (s : Text) → All (λ b. b < 0x80) s → utf8_from 0 0x80 0xBF s ≡ true
unfolding utf8_from lead
utf8_from-ascii [] h = refl
utf8_from-ascii (b ∷ s) h = ground (arith, utf8_from-ascii s h.1)

pub is_utf8-ascii : (s : Text) → All (λ b. b < 0x80) s → is_utf8 s ≡ true
unfolding is_utf8
is_utf8-ascii s h = utf8_from-ascii s h

pub from_utf8_lem : (s : Text) → from_utf8 s ≡ (if is_utf8 s then some s else none)
unfolding from_utf8
from_utf8_lem s = refl
