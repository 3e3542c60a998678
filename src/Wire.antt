-- ===== src/Wire.antt =====
-- The contract's separated lists on their way to the node: the return value of a message of
-- database/contract/lib.rs, printed by `cargo contract`, read by database/src/util.rs.
use samaritan_db.Prelude.{
  filter, flat_map, sym, ℕ, refl, ap, true, List, arith, is_empty, All, [], subst, ◌≡◌, ◌∙◌, ◌≢◌,
  ◌∷◌, ◌++◌, if◌then◌else◌,
}
use samaritan_db.Text.{Text, codes}
use samaritan_db.Contract.State.{DbContract, separator}
use samaritan_db.Contract.Access.{get_restriction_list, blockers_of}
use samaritan_db.Util.Texts.{extract_dids, extract_dids-flat_map, IsPlain}
use samaritan_db.Text.Split
use samaritan_db.Util.ReturnData.{
  output_of, parse_contract_return_data, parse_contract_return_data-printed, digits_of, bytes_of,
  IsPrinted, IsSilent, parse_contract_return_data-silent,
}
use samaritan_db.Text.Split.{join}
use samaritan_db.Text.Utf8.{is_utf8}

-- A tool's print of a return value: behind the marker its bytes as decimal numbers, set in text
-- that has neither digits nor commas. An empty value has no numbers.
pub record Prints (binding value : Text) : Type 0 where
  pub before : Text
  pub after : Text
  pub elements : List (Text × ℕ)
  pub shape : output_of binding ≡ before ++ (join (codes ", ") (digits_of elements) ++ after)
  pub before_silent : IsSilent before
  pub after_silent : IsSilent after
  pub printed : All IsPrinted elements
  pub carries : bytes_of elements ≡ value

IsSilent-append : (a b : Text) → IsSilent a → IsSilent b → IsSilent (a ++ b)
IsSilent-append [] b h k = k
IsSilent-append (x ∷ a) b h k = (h.0, IsSilent-append a b h.1 k)

-- A value that is not empty is read as printed; an empty one as a NUL byte.
pub parse_contract_return_data-Prints :
    {binding value : Text}
    → Prints binding value
    → is_utf8 value ≡ true
    → parse_contract_return_data binding ≡ (if is_empty value then 0 ∷ [] else value)
parse_contract_return_data-Prints {binding} {value} p u = by_elements p.elements refl
  where
    by_elements :
        (es : List (Text × ℕ))
        → p.elements ≡ es
        → parse_contract_return_data binding ≡ (if is_empty value then 0 ∷ [] else value)
    by_elements [] none_printed =
        let bare : value ≡ [] = sym (p.carries) ∙ ap bytes_of none_printed in
        let shape : output_of binding ≡ p.before ++ p.after =
          p.shape
          ∙ unfold join in
            ap (λ es. p.before ++ (join (codes ", ") (digits_of es) ++ p.after)) none_printed in
        rw bare (
          parse_contract_return_data-silent binding (
            subst IsSilent (sym shape)
              (IsSilent-append p.before p.after p.before_silent p.after_silent)))
    by_elements (e ∷ es) some_printed =
        let full : value ≡ bytes_of (e ∷ es) = sym (p.carries) ∙ ap bytes_of some_printed in
        rw full (
          parse_contract_return_data-printed binding p.before p.after e es
            (subst
              (λ xs. output_of binding ≡ p.before ++ (join (codes ", ") (digits_of xs) ++ p.after))
              some_printed p.shape)
            p.before_silent p.after_silent (subst (All IsPrinted) some_printed p.printed)
            (subst (λ v. is_utf8 v ≡ true) full u))

-- What is read of a value, before it is taken apart.
abbrev received : Text → Text
received value = if is_empty value then 0 ∷ [] else value

-- The separated list of some names, as `get_restriction_list` builds it.
abbrev sent_list : List Text → Text
sent_list = flat_map (λ user. user ++ separator)

received-sent_list :
    (user : Text) (users : List Text)
    → received (sent_list (user ∷ users)) ≡ sent_list (user ∷ users)
unfolding flat_map
received-sent_list [] users = refl
received-sent_list (b ∷ user) users = refl

extract_dids-received :
    (users : List Text)
    → All IsPlain users
    → extract_dids (received (sent_list users)) ≡ (if is_empty users then (0 ∷ []) ∷ [] else users)
unfolding extract_dids flat_map filter
extract_dids-received [] h = rw (Split.split-last b'$' (b'$' ∷ b'$' ∷ []) (0 ∷ []) free) refl
  where
    free : All {A = ℕ} (λ b. b ≢ b'$') (0 ∷ [])
    free = (ground arith, tt)
extract_dids-received (user ∷ users) h =
    ap extract_dids (received-sent_list user users) ∙ extract_dids-flat_map (user ∷ users) h

-- If the names of the users that the contract holds as an application's blockers are free of the
-- separator's byte and not empty, their list is UTF-8, and the tool prints its bytes as decimal
-- numbers in text without digits and commas, the node reads from the print of
-- `get_restriction_list` exactly these users, in order; but if there is no blocker, it reads one user,
-- whose name is a NUL byte.
pub extract_dids-get_restriction_list :
    (app binding : Text) (c : DbContract)
    → Prints binding (get_restriction_list app c)
    → is_utf8 (get_restriction_list app c) ≡ true
    → All IsPlain (blockers_of app c)
    → extract_dids (parse_contract_return_data binding)
      ≡ (if is_empty (blockers_of app c) then (0 ∷ []) ∷ [] else blockers_of app c)
unfolding get_restriction_list
extract_dids-get_restriction_list app binding c p u h =
    ap extract_dids (parse_contract_return_data-Prints p u)
    ∙ ap (λ v. extract_dids (received v)) list_lem
    ∙ extract_dids-received (blockers_of app c) h
  where
    list_lem : get_restriction_list app c ≡ sent_list (blockers_of app c)
    list_lem = unfold flat_map in ground arith
