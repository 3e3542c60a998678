-- ===== src/Util/Texts.antt =====
-- The lists that database/src/util.rs reads out of separated texts.
use samaritan_db.Prelude.{
  ap, Bool, false, not, List, map, append_assoc, num_eq, length, is_empty, All, [], filter,
  flat_map, ◌≡◌, ◌∙◌, ◌≢◌, ◌&&◌, ◌∷◌, ◌++◌,
}
use samaritan_db.Text.{contains, contains-filter, Text, codes}
use samaritan_db.Dict.{Dict}
use samaritan_db.Dict
use samaritan_db.Text.Split
use samaritan_db.Text.Split.{split}
use samaritan_db.Contract.State.{separator}

unfoldable pub extract_dids : Text → List Text
extract_dids input = filter (λ s. not (is_empty s)) (split separator input)

-- The items of the second list that the first lacks.
unfoldable pub disjoint_strings : List Text → List Text → List Text
disjoint_strings vec1 vec2 = filter (λ item. not (contains vec1 item)) vec2

-- The peer and the address that the parts of one entry stand for.
unfoldable pub address_entry : List Text → Text × Text
address_entry (address ∷ peer ∷ []) = (peer, address)
address_entry (address ∷ parts) = ([], address)
address_entry [] = ([], [])

-- `Iterator::collect` into a `HashMap`: a later entry replaces an earlier one.
unfoldable pub collect {ℓ} : {V : Type ℓ} → Dict V → List (Text × V) → Dict V
collect m [] = m
collect m ((k, v) ∷ es) = collect (Dict.insert k v m) es

unfoldable pub parse_multiaddresses : Text → Dict Text
parse_multiaddresses addresses = collect [] (
    map (λ address. address_entry (split (codes "/p2p/") address))
      (filter (λ s. not (is_empty s)) (split separator addresses)))

unfoldable pub is_contract_address : Text → Bool
is_contract_address address = num_eq (length address) 48

-- A text that the separated lists carry unharmed: not empty, and free of the separator's byte.
abbrev pub IsPlain : Text → Type 0
IsPlain s = (is_empty s ≡ false) × All (λ b. b ≢ b'$') s

-- What the contract sends as a separated list is read back as the same list.
pub extract_dids-flat_map :
    (dids : List Text)
    → All IsPlain dids
    → extract_dids (flat_map (λ did. did ++ separator) dids) ≡ dids
unfolding extract_dids flat_map filter
extract_dids-flat_map [] h = rw (Split.split-last b'$' (b'$' ∷ b'$' ∷ []) [] tt, filter)
extract_dids-flat_map (did ∷ dids) h =
    let rest = flat_map (λ (d : Text). d ++ separator) dids in
    ap (λ t. filter (λ s. not (is_empty s)) (split separator t)) (append_assoc did separator rest)
    ∙ ap (filter (λ s. not (is_empty s))) (Split.split-piece b'$' (b'$' ∷ b'$' ∷ []) did rest h.0.1)
    ∙ rw (h.0.0, filter) (ap (◌∷◌ did) (extract_dids-flat_map dids h.1))

-- The result holds exactly the items of the second list that are not in the first.
pub contains-disjoint_strings :
    (vec1 vec2 : List Text) (a : Text)
    → contains (disjoint_strings vec1 vec2) a ≡ (contains vec2 a && not (contains vec1 a))
unfolding disjoint_strings
contains-disjoint_strings vec1 vec2 a = contains-filter (λ item. not (contains vec1 item)) vec2 a
