-- ===== src/Text/Words.antt =====
-- `str::split` by a test on bytes, and `str::split_ascii_whitespace`.
use samaritan_db.Prelude.{
  ℕ, refl, sym, ap, inl, inr, Bool, false, not, List, append-nil, num_eq, Bool-cases, is_empty, All,
  [], filter, ◌≡◌, ◌∙◌, ◌||◌, ◌∷◌, ◌++◌, if◌then◌else◌,
}
use samaritan_db.Text.Bytes.{Text, codes}
use samaritan_db.Text.Split.{push_front, join}

unfoldable pub split_when : (ℕ → Bool) → Text → List Text
split_when p [] = [] ∷ []
split_when p (b ∷ s) = let rest = split_when p s in if p b then [] ∷ rest else push_front b rest

abbrev pub is_ascii_whitespace : ℕ → Bool
is_ascii_whitespace b =
    num_eq b 0x20 || (num_eq b 0x09 || (num_eq b 0x0A || (num_eq b 0x0C || num_eq b 0x0D)))

unfoldable pub split_ascii_whitespace : Text → List Text
split_ascii_whitespace s = filter (λ w. not (is_empty w)) (split_when is_ascii_whitespace s)

-- A word: not empty, and without blanks.
abbrev pub IsWord : Text → Type 0
IsWord s = (is_empty s ≡ false) × All (λ b. is_ascii_whitespace b ≡ false) s

split_when-nonempty :
    (p : ℕ → Bool) (s : Text) → (w : Text) × (ws : List Text) × (split_when p s ≡ w ∷ ws)
unfolding split_when
split_when-nonempty p [] = ([], [], refl)
split_when-nonempty p (b ∷ s) =
    let (w, ws, e) = split_when-nonempty p s in
    elim (Bool-cases (p b)) [
      | inl cut ↦ ([], split_when p s, rw (cut, split_when))
      | inr keep_byte ↦ (b ∷ w, ws, rw (keep_byte, split_when) (rw e))
    ]

split_when-word :
    (w s : Text)
    → All (λ b. is_ascii_whitespace b ≡ false) w
    → (r : Text) (rs : List Text) → split_when is_ascii_whitespace s ≡ r ∷ rs
    → split_when is_ascii_whitespace (w ++ s) ≡ (w ++ r) ∷ rs
unfolding split_when
split_when-word [] s h r rs e = e
split_when-word (b ∷ w) s h r rs e = rw (h.0, split_when) (rw (split_when-word w s h.1 r rs e))

-- Words joined by single blanks are the words again.
pub split_ascii_whitespace-join :
    (ws : List Text) → All IsWord ws → split_ascii_whitespace (join (codes " ") ws) ≡ ws
unfolding split_ascii_whitespace filter join
split_ascii_whitespace-join [] h = unfold split_when in refl
split_ascii_whitespace-join (w ∷ []) h =
    ap (λ s. filter (λ w. not (is_empty w)) (split_when is_ascii_whitespace s)) (sym (append-nil w))
    ∙ ap (filter (λ w. not (is_empty w)))
        (split_when-word w [] h.0.1 [] [] (unfold split_when in refl))
    ∙ rw (append-nil w, h.0.0, filter)
split_ascii_whitespace-join (w ∷ v ∷ ws) h =
    ap (filter (λ w. not (is_empty w))) (
      split_when-word w (codes " " ++ join (codes " ") (v ∷ ws)) h.0.1 []
        (split_when is_ascii_whitespace (join (codes " ") (v ∷ ws))) (unfold split_when in refl))
    ∙ rw (append-nil w, h.0.0, filter) (ap (◌∷◌ w) (split_ascii_whitespace-join (v ∷ ws) h.1))
