-- ===== src/Command/Parse.antt =====
-- `Command::parse` of database/src/prelude.rs.
pub mod Idempotent
use samaritan_db.Prelude.{
  Bool, not, Option, List, ltb, num_eq, unwrap_or, is_some, length, is_empty, [], ◌&&◌, ◌||◌, ◌∷◌,
  if◌then◌else◌,
}
use samaritan_db.Text.{Text, codes, starts_with}
use samaritan_db.Text.Split.{split}
use samaritan_db.Database.Reply.{DbError, command_parse_error, invalid_password_error}
use samaritan_db.Command
use samaritan_db.Command.{Command}

-- `Iterator::last`, with the default for an empty one.
unfoldable pub last_or_default : List Text → Text
last_or_default [] = []
last_or_default (p ∷ []) = p
last_or_default (p ∷ q ∷ ps) = last_or_default (q ∷ ps)

unfoldable pub remove_cli_prefix : Text → Text
remove_cli_prefix arg = last_or_default (split (codes "=") arg)

unfoldable pub is_did : Text → Bool
is_did did =
    starts_with (codes "did:sam:root:") (remove_cli_prefix did)
    || starts_with (codes "did:sam:apps:") (remove_cli_prefix did)

abbrev pub is_not_empty : Text → Bool
is_not_empty s = ltb 0 (length s)

unfoldable pub is_valid_mnemonic : Text → Bool
is_valid_mnemonic mnemonic = num_eq (length (split (codes "_") mnemonic)) 12

-- The test on the two names that most commands make.
abbrev pub names_ok : Text → Option Text → Bool
names_ok did sam_did = (is_did did && not (is_some sam_did)) || is_did (unwrap_or sam_did [])

-- `DBResult<Command>`
pub data Parsed : Type 0 where
  parsed : Command → Parsed
  failed : DbError → Parsed

unfoldable pub check : Command → Parsed
check Command.info = parsed Command.info
check Command.help = parsed Command.help
check Command.quit = parsed Command.quit
check Command.invalid = failed command_parse_error
check (Command.init did mnemonic) =
    if is_did did
    then (if is_valid_mnemonic mnemonic
        then parsed (Command.init (remove_cli_prefix did) mnemonic)
        else failed invalid_password_error)
    else failed command_parse_error
check (Command.set did sam_did key value) =
    if names_ok did sam_did && (is_not_empty key && is_not_empty value)
    then parsed (Command.set did sam_did key value)
    else failed command_parse_error
check (Command.get did sam_did key) =
    if names_ok did sam_did && is_not_empty key
    then parsed (Command.get did sam_did key)
    else failed command_parse_error
check (Command.exists did sam_did key) =
    if names_ok did sam_did && is_not_empty key
    then parsed (Command.exists did sam_did key)
    else failed command_parse_error
check (Command.del did sam_did key) =
    if names_ok did sam_did && is_not_empty key
    then parsed (Command.del did sam_did key)
    else failed command_parse_error
check (Command.keys did sam_did offset len) =
    if names_ok did sam_did
    then parsed (Command.keys did sam_did offset len)
    else failed command_parse_error
check (Command.truncate did sam_did) =
    if names_ok did sam_did
    then parsed (Command.truncate did sam_did)
    else failed command_parse_error
check (Command.leave did mnemonic) =
    if is_did did
    then (if is_valid_mnemonic mnemonic
        then parsed (Command.leave did mnemonic)
        else failed invalid_password_error)
    else failed command_parse_error
check (Command.config did flag param) =
    if is_did did && (starts_with (codes "-") flag && not (is_empty param))
    then parsed (Command.config did flag param)
    else failed command_parse_error

-- An error is printed, and the command becomes the invalid one.
unfoldable pub parse : Command → Command
parse c = elim (check c) [ parsed cmd ↦ cmd | failed _ ↦ Command.invalid ]
