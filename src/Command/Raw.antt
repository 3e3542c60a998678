-- ===== src/Command/Raw.antt =====
-- `pckg_raw_cmd` of database/src/cli.rs.
pub mod RoundTrip
use samaritan_db.Prelude.{ℕ, Option, none, some, List, [], ◌∷◌, if◌then◌else◌}
use samaritan_db.Text.{Text, codes, ◌==◌}
use samaritan_db.Text.Number.{parse_uint, u64_limit}
use samaritan_db.Text.Words.{split_ascii_whitespace}
use samaritan_db.Command
use samaritan_db.Command.{Command}

-- `parse::<usize>().ok()` on a 64-bit machine.
abbrev pub parse_usize : Text → Option ℕ
parse_usize = parse_uint u64_limit

-- The command that a list of words stands for. The cases are those of the source, by length.
unfoldable pub package_words : List Text → Command
package_words (a ∷ []) =
    if a == codes "quit"
    then Command.quit
    else (if a == codes "help"
        then Command.help
        else (if a == codes "info" then Command.info else Command.invalid))
package_words (a ∷ did ∷ []) =
    if a == codes "truncate" then Command.truncate did none else Command.invalid
package_words (a ∷ did ∷ x ∷ []) =
    if a == codes "init"
    then Command.init did x
    else (if a == codes "get"
        then Command.get did none x
        else (if a == codes "del"
            then Command.del did none x
            else (if a == codes "exists"
                then Command.exists did none x
                else (if a == codes "truncate"
                    then Command.truncate did (some x)
                    else (if a == codes "leave" then Command.leave did x else Command.invalid)))))
package_words (a ∷ did ∷ x ∷ y ∷ []) =
    if a == codes "set"
    then Command.set did none x y
    else (if a == codes "get"
        then Command.get did (some x) y
        else (if a == codes "del"
            then Command.del did (some x) y
            else (if a == codes "exists"
                then Command.exists did (some x) y
                else (if a == codes "keys"
                    then Command.keys did none (parse_usize x) (parse_usize y)
                    else (if a == codes "config"
                        then Command.config did x y
                        else Command.invalid)))))
package_words (a ∷ did ∷ x ∷ y ∷ z ∷ []) =
    if a == codes "set"
    then Command.set did (some x) y z
    else (if a == codes "keys"
        then Command.keys did (some x) (parse_usize y) (parse_usize z)
        else Command.invalid)
package_words _ = Command.invalid

unfoldable pub pckg_raw_cmd : Text → Command
pckg_raw_cmd cmd = package_words (split_ascii_whitespace cmd)
