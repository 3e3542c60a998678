-- ===== src/Tests/Texts.antt =====
-- The readers of texts at concrete texts: what `cargo contract` prints, and what a user types.
use samaritan_db.Prelude.{flat_map, ℕ, refl, List, arith, All, [], ◌≡◌, ◌∷◌, ◌++◌}
use samaritan_db.Text.{Text, codes, ◌==◌}
use samaritan_db.Dict.{Dict}
use samaritan_db.Dict
use samaritan_db.Contract.Access.{blockers_of, get_restriction_list}
use samaritan_db.Text.Number.{parse_uint}
use samaritan_db.Text.Utf8.{is_utf8}
use samaritan_db.Text.Split.{strip_prefix, join, split, split_from}
use samaritan_db.Util.ReturnData.{digits_of, parse_contract_return_data, output_of, IsPrinted}
use samaritan_db.Util.Texts.{extract_dids}
use samaritan_db.Tests.Data.{contract, app}
use samaritan_db.Wire.{Prints, extract_dids-get_restriction_list}

-- The digits of the bytes of "eve$$$sam$$$".
abbrev first_byte : Text × ℕ
first_byte = (codes "101", 101)

abbrev other_bytes : List (Text × ℕ)
other_bytes =
    (codes "118", 118)
    ∷ (codes "101", 101)
    ∷ (codes "36", 36)
    ∷ (codes "36", 36)
    ∷ (codes "36", 36)
    ∷ (codes "115", 115)
    ∷ (codes "97", 97)
    ∷ (codes "109", 109)
    ∷ (codes "36", 36)
    ∷ (codes "36", 36)
    ∷ (codes "36", 36)
    ∷ []

abbrev printed : Text
printed = codes "Ok(Sequence { elems: [101, 118, 101, 36, 36, 36, 115, 97, 109, 36, 36, 36] })"

printed-output :
    output_of printed
    ≡ codes "[" ++ (join (codes ", ") (digits_of (first_byte ∷ other_bytes)) ++ codes "] })")
unfolding output_of split split_from strip_prefix join
printed-output = refl

printed-IsPrinted : All IsPrinted (first_byte ∷ other_bytes)
unfolding parse_uint
printed-IsPrinted = ground arith

printed-Prints : Prints printed (get_restriction_list app contract)
unfolding get_restriction_list Dict.lookup ◌==◌ flat_map
printed-Prints = record {
  before = codes "[";
  after = codes "] })";
  elements = first_byte ∷ other_bytes;
  shape = printed-output;
  before_silent = (refl, tt);
  after_silent = (ground arith);
  printed = printed-IsPrinted;
  carries = refl;
}

extract_dids-get_restriction_list_example :
    extract_dids (parse_contract_return_data printed) ≡ blockers_of app contract
unfolding get_restriction_list Dict.lookup ◌==◌ flat_map is_utf8
extract_dids-get_restriction_list_example =
    extract_dids-get_restriction_list app printed contract printed-Prints refl (ground arith)
