-- ===== src/Text/Lists.antt =====
-- Lists of texts as sets: membership, distinctness, and their behaviour under the list operations.
use samaritan_db.Prelude.{
  refl, Bool, true, false, List, arith, drop, All, [], filter, ◌≡◌, ◌&&◌, ◌||◌, ◌∷◌, ◌++◌,
}
use samaritan_db.Text.Bytes.{Text, eq_iff, eq_refl, eq_comm, ◌==◌}

-- `Vec::contains`
unfoldable pub contains : List Text → Text → Bool
contains [] a = false
contains (x ∷ xs) a = x == a || contains xs a

-- No text is listed twice.
abbrev pub IsDistinct : List Text → Type 0
IsDistinct [] = Unit
IsDistinct (x ∷ xs) = (contains xs x ≡ false) × IsDistinct xs

pub contains-append :
    (xs ys : List Text) (a : Text) → contains (xs ++ ys) a ≡ (contains xs a || contains ys a)
unfolding contains
contains-append [] ys a = refl
contains-append (x ∷ xs) ys a = ground (arith, contains-append xs ys a)

pub contains_self : (a : Text) → contains (a ∷ []) a ≡ true
unfolding contains
contains_self a = rw eq_refl

pub contains-filter :
    (p : Text → Bool) (xs : List Text) (a : Text)
    → contains (filter p xs) a ≡ (contains xs a && p a)
unfolding contains filter
contains-filter p [] a = refl
contains-filter p (x ∷ xs) a = ground (arith, eq_iff x a, contains-filter p xs a)

pub filter-IsDistinct :
    (p : Text → Bool) (xs : List Text) → IsDistinct xs → IsDistinct (filter p xs)
unfolding filter
filter-IsDistinct p [] h = tt
filter-IsDistinct p (x ∷ xs) h = ground (arith, filter-IsDistinct p xs h.1, contains-filter p xs x)

pub drop-IsDistinct : (xs : List Text) → IsDistinct xs → IsDistinct (drop 1 xs)
drop-IsDistinct [] h = tt
drop-IsDistinct (x ∷ xs) h = h.1

pub contains-drop :
    (xs : List Text) (a : Text) → contains xs a ≡ false → contains (drop 1 xs) a ≡ false
unfolding contains
contains-drop [] a h = refl
contains-drop (x ∷ xs) a h = ground arith

pub append-IsDistinct :
    (xs : List Text) (a : Text) → contains xs a ≡ false → IsDistinct xs → IsDistinct (xs ++ a ∷ [])
unfolding contains
append-IsDistinct [] a h d = (refl, tt)
append-IsDistinct (x ∷ xs) a h d =
    ground (arith, append-IsDistinct xs a, contains-append xs (a ∷ []) x, eq_comm a x)

-- A filter that every member passes changes nothing.
pub filter-all : (p : Text → Bool) (xs : List Text) → All (λ x. p x ≡ true) xs → filter p xs ≡ xs
unfolding filter
filter-all p [] h = refl
filter-all p (x ∷ xs) h = ground (arith, filter-all p xs h.1)
