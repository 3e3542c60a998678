-- ===== src/Command/Parse/Idempotent.antt =====
-- A command that has been parsed passes a second parse unchanged, as the HTTP server relies on.
use samaritan_db.Prelude.{refl, ap, List, arith, All, [], ◌≡◌, ◌≢◌, ◌∷◌}
use samaritan_db.Text.{Text, codes}
use samaritan_db.Text.Split
use samaritan_db.Command.Parse.{parse, remove_cli_prefix, check, last_or_default, is_did}
use samaritan_db.Command.{Command}

last_or_default-All :
    (P : Text → Type 0) (ps : List Text) → P [] → All P ps → P (last_or_default ps)
unfolding last_or_default
last_or_default-All P [] d h = d
last_or_default-All P (p ∷ []) d h = h.0
last_or_default-All P (p ∷ q ∷ ps) d h = last_or_default-All P (q ∷ ps) d h.1

remove_cli_prefix_idem : (s : Text) → remove_cli_prefix (remove_cli_prefix s) ≡ remove_cli_prefix s
unfolding remove_cli_prefix last_or_default
remove_cli_prefix_idem s = ap last_or_default (Split.split-last b'=' [] (remove_cli_prefix s) free)
  where
    free : All (λ b. b ≢ b'=') (remove_cli_prefix s)
    free =
        last_or_default-All (All (λ b. b ≢ b'=')) (Split.split (codes "=") s) tt
          (Split.split-pieces b'=' s)

is_did-remove_cli_prefix : (s : Text) → is_did (remove_cli_prefix s) ≡ is_did s
unfolding is_did
is_did-remove_cli_prefix s = rw (remove_cli_prefix_idem s)

-- Parsing twice is parsing once, for every command: what one parse lets through the next does too.
pub parse-parse : (c : Command) → parse (parse c) ≡ parse c
unfolding parse check
parse-parse (Command.init did mnemonic) =
    ground (arith, is_did-remove_cli_prefix did, remove_cli_prefix_idem did)
parse-parse Command.info = refl
parse-parse c = ground arith
