-- ===== src/Command/Raw/RoundTrip.antt =====
-- What a user types for a command is read as that command.
use samaritan_db.Text.Words.{IsWord, split_ascii_whitespace-join}
use samaritan_db.Text.Split.{join}
use samaritan_db.Command.Raw.{parse_usize, pckg_raw_cmd, package_words}
use samaritan_db.Prelude.{
  refl, ap, Bool, true, false, Option, none, some, List, All, [], ◌≡◌, ◌∙◌, ◌∷◌,
}
use samaritan_db.Text.{Text, codes, ◌==◌}
use samaritan_db.Command.{Command}

-- An optional owner, where it is typed.
abbrev pub optional : Option Text → List Text → List Text
optional none ws = ws
optional (some s) ws = s ∷ ws

-- The words typed for a command. Page limits of `keys` are left to the user.
abbrev pub words_of : Command → List Text
words_of Command.info = codes "info" ∷ []
words_of Command.quit = codes "quit" ∷ []
words_of Command.help = codes "help" ∷ []
words_of Command.invalid = []
words_of (Command.init did mnemonic) = codes "init" ∷ did ∷ mnemonic ∷ []
words_of (Command.set did sam key value) = codes "set" ∷ did ∷ optional sam (key ∷ value ∷ [])
words_of (Command.get did sam key) = codes "get" ∷ did ∷ optional sam (key ∷ [])
words_of (Command.del did sam key) = codes "del" ∷ did ∷ optional sam (key ∷ [])
words_of (Command.exists did sam key) = codes "exists" ∷ did ∷ optional sam (key ∷ [])
words_of (Command.keys did sam offset len) = codes "keys" ∷ did ∷ optional sam []
words_of (Command.truncate did sam) = codes "truncate" ∷ did ∷ optional sam []
words_of (Command.leave did mnemonic) = codes "leave" ∷ did ∷ mnemonic ∷ []
words_of (Command.config did flag param) = codes "config" ∷ did ∷ flag ∷ param ∷ []

abbrev pub is_keys : Command → Bool
is_keys (Command.keys _ _ _ _) = true
is_keys _ = false

package_words-words_of : (c : Command) → is_keys c ≡ false → package_words (words_of c) ≡ c
unfolding package_words ◌==◌
package_words-words_of (Command.set did none key value) h = refl
package_words-words_of (Command.set did (some sam) key value) h = refl
package_words-words_of (Command.get did none key) h = refl
package_words-words_of (Command.get did (some sam) key) h = refl
package_words-words_of (Command.del did none key) h = refl
package_words-words_of (Command.del did (some sam) key) h = refl
package_words-words_of (Command.exists did none key) h = refl
package_words-words_of (Command.exists did (some sam) key) h = refl
package_words-words_of (Command.truncate did none) h = refl
package_words-words_of (Command.truncate did (some sam)) h = refl
package_words-words_of (Command.keys did sam offset len) h = cc
package_words-words_of c h = refl

-- The words of a command other than `keys`, joined by blanks, are read as the command, if its names,
-- keys and values are words themselves.
pub pckg_raw_cmd-words_of :
    (c : Command)
    → is_keys c ≡ false
    → All IsWord (words_of c)
    → pckg_raw_cmd (join (codes " ") (words_of c)) ≡ c
unfolding pckg_raw_cmd
pckg_raw_cmd-words_of c h plain =
    ap package_words (split_ascii_whitespace-join (words_of c) plain) ∙ package_words-words_of c h

-- The typed words of a `keys` command, with its two limits.
pub pckg_raw_cmd-keys :
    (did : Text) (sam : Option Text) (offset len : Text)
    → All IsWord (codes "keys" ∷ did ∷ optional sam (offset ∷ len ∷ []))
    → pckg_raw_cmd (join (codes " ") (codes "keys" ∷ did ∷ optional sam (offset ∷ len ∷ [])))
      ≡ Command.keys did sam (parse_usize offset) (parse_usize len)
unfolding pckg_raw_cmd package_words ◌==◌
pckg_raw_cmd-keys did none offset len plain = ap package_words (split_ascii_whitespace-join _ plain)
pckg_raw_cmd-keys did (some sam) offset len plain =
    ap package_words (split_ascii_whitespace-join _ plain)
