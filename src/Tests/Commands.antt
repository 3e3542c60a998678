-- ===== src/Tests/Commands.antt =====
-- Lines that an operator types.
use samaritan_db.Command.Raw.{package_words, pckg_raw_cmd}
use samaritan_db.Main.Lines.{main_loop-set, line, IsIdle}
use samaritan_db.Main.{main_loop}
use samaritan_db.Prelude.{filter, refl, true, none, some, arith, All, [], ◌≡◌, ◌∷◌, ◌++◌}
use samaritan_db.Text.{Text, codes, starts_with, ◌==◌}
use samaritan_db.Dict.{Dict}
use samaritan_db.Text.Split.{split}
use samaritan_db.Command.Parse.{last_or_default, names_ok, is_did, remove_cli_prefix, parse, check}
use samaritan_db.Dict
use samaritan_db.Text.Words.{IsWord, split_ascii_whitespace, split_when}
use samaritan_db.Command.Raw.RoundTrip.{words_of}
use samaritan_db.Database.Reply.{bake_response, get, ok}
use samaritan_db.Database.World.{World}
use samaritan_db.Database.Get.{cached, get_db_value}
use samaritan_db.Tests.Data.{generous, fresh, node_state, name, sam_entry, node}
use samaritan_db.Command.{Command}

-- An application whose name passes the parse, on a node that has loaded it.
abbrev app_did : Text
app_did = codes "did:sam:apps:1"

abbrev loaded : World
loaded = record node {
  state = record node_state {
    applications = (app_did, (app_did, record sam_entry { did = app_did }) ∷ []) ∷ [];
  };
}

app_did_is_valid : names_ok app_did none ≡ true
unfolding is_did starts_with remove_cli_prefix last_or_default split
app_did_is_valid = refl

stop-IsIdle : IsIdle (some (codes "stop"))
unfolding parse check pckg_raw_cmd package_words split_ascii_whitespace split_when filter ◌==◌
stop-IsIdle = refl

-- The write is typed between a line that cannot be read and a word that is no command.
main_loop-set_example :
    (get_db_value app_did none name
      (main_loop generous
        ((none ∷ []) ++ line (Command.set app_did none name fresh) ∷ some (codes "stop") ∷ [])
        loaded).1).0
    ≡ ok (bake_response (get name fresh))
unfolding cached Dict.lookup ◌==◌
main_loop-set_example =
    main_loop-set generous app_did none name fresh (none ∷ []) (some (codes "stop") ∷ []) loaded
      (tt, tt) (stop-IsIdle, tt) app_did_is_valid typed_words refl refl refl refl
  where
    typed_words : All IsWord (words_of (Command.set app_did none name fresh))
    typed_words = ground arith
