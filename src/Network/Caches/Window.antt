-- ===== src/Network/Caches/Window.antt =====
-- What the caches of network.rs hold after any sequence of messages.
use samaritan_db.Prelude.{
  sym, length-drop, drop-append, ℕ, zero, suc, refl, ap, inl, inr, List, append_assoc, append-nil,
  arith, min, leb, Bool-cases, length, drop, length-append, [], ◌+◌, ◌-◌, ◌≡◌, ◌∙◌, ◌∷◌, ◌++◌,
  if◌then◌else◌,
}
use samaritan_db.Text.{Text}
use samaritan_db.Network.Caches.{mcache_len, SeenMsgs, add_data}

-- The last `n` entries.
abbrev pub suffix : ℕ → List Text → List Text
suffix n xs = drop (length xs - n) xs

drop-nil : (n : ℕ) → drop {A = Text} n [] ≡ []
drop-nil zero = refl
drop-nil (suc n) = refl

drop-suffix : (n k : ℕ) (xs : List Text) → drop n (drop k xs) ≡ drop (k + n) xs
drop-suffix n zero xs = ap (λ m. drop m xs) (omega arith)
drop-suffix n (suc k) [] = drop-nil n ∙ sym (drop-nil (suc k + n))
drop-suffix n (suc k) (x ∷ xs) =
    let next : suc (k + n) ≡ suc k + n = omega arith in
    drop-suffix n k xs ∙ ap (λ m. drop m (x ∷ xs)) next

pub length-suffix : (n : ℕ) (xs : List Text) → length (suffix n xs) ≡ min n (length xs)
length-suffix n xs = omega (arith, length-drop (length xs - n) xs)

drop-snoc :
    (m : ℕ) (xs : List Text) (a : Text)
    → m ≡ length xs + 1 - mcache_len
    → drop m xs ++ (a ∷ []) ≡ suffix mcache_len (xs ++ (a ∷ []))
drop-snoc m xs a h =
    sym (drop-append m xs (a ∷ []) (omega arith))
    ∙ ap (λ n. drop n (xs ++ (a ∷ []))) (omega (arith, length-append xs (a ∷ [])))

-- One more entry, and the window is moved.
pub suffix-append :
    (xs : List Text) (a : Text)
    → (if leb mcache_len (length (suffix mcache_len xs))
          then drop 1 (suffix mcache_len xs)
          else suffix mcache_len xs)
        ++ (a ∷ [])
      ≡ suffix mcache_len (xs ++ (a ∷ []))
suffix-append xs a = elim (Bool-cases (leb mcache_len (length (suffix mcache_len xs)))) [
  | inl full ↦ rw full (
      ap (λ ys. ys ++ a ∷ []) (drop-suffix 1 (length xs - mcache_len) xs)
      ∙ drop-snoc (length xs - mcache_len + 1) xs a (ground (arith, length-suffix mcache_len xs)))
  | inr room ↦
      rw room
        (drop-snoc (length xs - mcache_len) xs a (ground (arith, length-suffix mcache_len xs)))
]

unfoldable pub add_all : List Text → SeenMsgs → SeenMsgs
unfolding add_data
add_all [] s = s
add_all (a ∷ ids) s = add_all ids (add_data a s)

add_all-suffix :
    (ids xs : List Text) → add_all ids (suffix mcache_len xs) ≡ suffix mcache_len (xs ++ ids)
unfolding add_all
add_all-suffix [] xs = ap (suffix mcache_len) (sym (append-nil xs))
add_all-suffix (a ∷ ids) xs =
    ap (add_all ids) (suffix-append xs a)
    ∙ add_all-suffix ids (xs ++ (a ∷ []))
    ∙ ap (suffix mcache_len) (append_assoc xs (a ∷ []) ids)

-- After any ids the seen list holds the latest 890 of them, in order.
pub add_all-latest : (ids : List Text) → add_all ids [] ≡ suffix mcache_len ids
add_all-latest ids = add_all-suffix ids []
