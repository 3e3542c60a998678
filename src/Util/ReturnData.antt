-- ===== src/Util/ReturnData.antt =====
-- `parse_contract_return_data` of database/src/util.rs: the bytes that `cargo contract` printed.
use samaritan_db.Prelude.{
  ℕ, refl, ap, inl, inr, Bool, true, false, some, List, map, append-nil, arith, num_eq, Bool-cases,
  unwrap_or, All, [], filter, filter-append, ap₂, ◌<◌, ◌≡◌, ◌∙◌, ◌≢◌, ◌||◌, ◌∷◌, ◌++◌,
}
use samaritan_db.Text.{Text, codes}
use samaritan_db.Text.Split
use samaritan_db.Text.Split.{split, join}
use samaritan_db.Text.Number.{is_digit, parse_uint, u8_limit}
use samaritan_db.Text.Utf8.{is_utf8, from_utf8, from_utf8_lem, is_utf8-ascii}

-- The element of the split behind the first, `skip(1).next().unwrap_or_default()`.
unfoldable pub second_or_default : List Text → Text
second_or_default (p ∷ q ∷ ps) = q
second_or_default _ = []

abbrev pub marker : Text
marker = codes "elems: "

abbrev pub is_kept : ℕ → Bool
is_kept e = num_eq e b',' || is_digit e

-- The text behind the marker, and the numbers that stand in it as bytes.
unfoldable pub output_of : Text → Text
unfolding second_or_default
output_of binding = second_or_default (split marker binding)

unfoldable pub collate : Text → Text
collate output =
    map (λ e. unwrap_or (parse_uint u8_limit e) 0)
      (split (b',' ∷ []) (unwrap_or (from_utf8 (filter is_kept output)) []))

unfoldable pub parse_contract_return_data : Text → Text
parse_contract_return_data binding = unwrap_or (from_utf8 (collate (output_of binding))) []

-- What passes the filter is ASCII, so its check never fails.
filter-is_kept-ascii : (s : Text) → All (λ b. b < 0x80) (filter is_kept s)
unfolding filter
filter-is_kept-ascii [] = tt
filter-is_kept-ascii (b ∷ s) = elim (Bool-cases (is_kept b)) [
  | inl kept ↦ rw (kept, filter) (ground arith, filter-is_kept-ascii s)
  | inr dropped ↦ rw (dropped, filter) (filter-is_kept-ascii s)
]

collate_lem :
    (output : Text)
    → collate output
      ≡ map (λ e. unwrap_or (parse_uint u8_limit e) 0) (split (b',' ∷ []) (filter is_kept output))
unfolding collate
collate_lem output = rw (from_utf8_lem, is_utf8-ascii, filter-is_kept-ascii output)

-- A printed byte: digits that `parse` reads as it.
abbrev pub IsPrinted : Text × ℕ → Type 0
IsPrinted (digits, byte) =
    All (λ b. is_digit b ≡ true) digits × (parse_uint u8_limit digits ≡ some byte)

-- Text between the numbers.
abbrev pub IsSilent : Text → Type 0
IsSilent s = All (λ b. is_kept b ≡ false) s

filter-silent : (s : Text) → IsSilent s → filter is_kept s ≡ []
unfolding filter
filter-silent [] h = refl
filter-silent (b ∷ s) h = rw (h.0, filter) (filter-silent s h.1)

filter-digits : (s : Text) → All (λ b. is_digit b ≡ true) s → filter is_kept s ≡ s
unfolding filter
filter-digits [] h = refl
filter-digits (b ∷ s) h = ground (arith, filter-digits s h.1)

-- The printed digits of a list of bytes.
abbrev pub digits_of : List (Text × ℕ) → List Text
digits_of = map (λ e. e.0)

abbrev pub bytes_of : List (Text × ℕ) → Text
bytes_of = map (λ e. e.1)

-- The filter takes the blanks out of the printed list and leaves the numbers and commas.
filter-join :
    (e : Text × ℕ) (es : List (Text × ℕ))
    → All IsPrinted (e ∷ es)
    → filter is_kept (join (codes ", ") (digits_of (e ∷ es)))
      ≡ join (b',' ∷ []) (digits_of (e ∷ es))
unfolding join
filter-join e [] h = filter-digits e.0 h.0.0
filter-join e (e' ∷ es) h =
    filter-append is_kept e.0 (codes ", " ++ tail)
    ∙ ap₂ ◌++◌ (filter-digits e.0 h.0.0) (
        filter-append is_kept (codes ", ") tail
        ∙ ap (◌++◌ (filter is_kept (codes ", "))) (filter-join e' es h.1)
        ∙ ap (λ s. s ++ join (b',' ∷ []) (digits_of (e' ∷ es))) comma)
  where
    tail : Text
    tail = join (codes ", ") (digits_of (e' ∷ es))

    comma : filter is_kept (codes ", ") ≡ b',' ∷ []
    comma = unfold filter in refl

digits_free : (s : Text) → All (λ b. is_digit b ≡ true) s → All (λ b. b ≢ b',') s
digits_free [] h = tt
digits_free (b ∷ s) h = (ground (arith, h.0), digits_free s h.1)

printed_free : (es : List (Text × ℕ)) → All IsPrinted es → All (All (λ b. b ≢ b',')) (digits_of es)
printed_free [] h = tt
printed_free (e ∷ es) h = (digits_free e.0 h.0.0, printed_free es h.1)

parse_printed :
    (es : List (Text × ℕ))
    → All IsPrinted es
    → map (λ e. unwrap_or (parse_uint u8_limit e) 0) (digits_of es) ≡ bytes_of es
parse_printed [] h = refl
parse_printed (e ∷ es) h = ap₂ ◌∷◌ (rw (h.0.1)) (parse_printed es h.1)

-- Nothing printed behind the marker, or no marker: the result is one NUL byte, not the empty text.
pub parse_contract_return_data-silent :
    (binding : Text) → IsSilent (output_of binding) → parse_contract_return_data binding ≡ 0 ∷ []
unfolding parse_contract_return_data from_utf8 parse_uint
parse_contract_return_data-silent binding h =
    rw (collate_lem, filter-silent (output_of binding) h, Split.split-last b',' [] [] tt)

collate-printed :
    (before after : Text) (e : Text × ℕ) (es : List (Text × ℕ))
    → IsSilent before
    → IsSilent after
    → All IsPrinted (e ∷ es)
    → collate (before ++ (join (codes ", ") (digits_of (e ∷ es)) ++ after)) ≡ bytes_of (e ∷ es)
collate-printed before after e es b a h =
    collate_lem (before ++ (middle ++ after))
    ∙ ap (λ s. map (λ e. unwrap_or (parse_uint u8_limit e) 0) (split (b',' ∷ []) s)) numbers
    ∙ ap (map (λ e. unwrap_or (parse_uint u8_limit e) 0))
        (Split.split-join b',' [] e.0 (digits_of es) (printed_free (e ∷ es) h))
    ∙ parse_printed (e ∷ es) h
  where
    middle : Text
    middle = join (codes ", ") (digits_of (e ∷ es))

    numbers : filter is_kept (before ++ (middle ++ after)) ≡ join (b',' ∷ []) (digits_of (e ∷ es))
    numbers =
        filter-append is_kept before (middle ++ after)
        ∙ rw (filter-silent before b) (
            filter-append is_kept middle after
            ∙ rw (filter-silent after a) (append-nil _ ∙ filter-join e es h))

-- What is printed behind the marker as a list of numbers of a byte each, set in text that has
-- neither digits nor commas, is read back as these bytes, if they are UTF-8.
pub parse_contract_return_data-printed :
    (binding before after : Text) (e : Text × ℕ) (es : List (Text × ℕ))
    → output_of binding ≡ before ++ (join (codes ", ") (digits_of (e ∷ es)) ++ after)
    → IsSilent before
    → IsSilent after
    → All IsPrinted (e ∷ es)
    → is_utf8 (bytes_of (e ∷ es)) ≡ true
    → parse_contract_return_data binding ≡ bytes_of (e ∷ es)
unfolding parse_contract_return_data
parse_contract_return_data-printed binding before after e es o b a h u =
    rw (o, collate-printed before after e es b a h, from_utf8_lem, u)
