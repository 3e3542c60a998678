-- ===== src/Main/Lines.antt =====
-- What the operator's lines do, from the words typed to what clients read.
use samaritan_db.Prelude.{
  refl, ap, inl, inr, true, false, Option, none, some, List, arith, Bool-cases, unwrap_or, is_some,
  All, [], ◌≡◌, ◌∙◌, ◌∷◌, ◌++◌,
}
use samaritan_db.Text.{Text, codes}
use samaritan_db.Dict.{Dict}
use samaritan_db.Main.{discard, round, continued, main_loop, is_invalid, Round, after_round}
use samaritan_db.Command.Raw.{pckg_raw_cmd}
use samaritan_db.Dict
use samaritan_db.Database.Reply.{bake_response, get, ok}
use samaritan_db.Database.Set.{set_db_value}
use samaritan_db.Database.ReadWrite.{get_db_value-set_db_value}
use samaritan_db.Database.View.{access_of}
use samaritan_db.Database.Get.{cached, get_db_value}
use samaritan_db.Text.Words.{IsWord}
use samaritan_db.Text.Split.{join}
use samaritan_db.Command.Raw.RoundTrip.{words_of, pckg_raw_cmd-words_of, is_keys}
use samaritan_db.Command.Execute.{execute}
use samaritan_db.Command.Parse.{parse, is_not_empty, names_ok, check}
use samaritan_db.Database.World.{World}
use samaritan_db.Database.Init.{Outside, Task}
use samaritan_db.Command.{Command}

abbrev pub line : Command → Option Text
line c = some (join (codes " ") (words_of c))

is_not_empty-IsWord : (s : Text) → IsWord s → is_not_empty s ≡ true
is_not_empty-IsWord [] h = cc
is_not_empty-IsWord (b ∷ s) h = ground arith

-- A command other than `keys` and the invalid one, which passes the parse as it is, is executed as
-- typed.
round-line :
    (out : Outside) (c : Command) (w : World)
    → is_keys c ≡ false
    → is_invalid c ≡ false
    → All IsWord (words_of c)
    → parse c ≡ c
    → round out (line c) w ≡ (discard (execute out c w).0, (execute out c w).1)
unfolding round
round-line out c w no_keys valid typed_words passes =
    rw (pckg_raw_cmd-words_of c no_keys typed_words, valid, passes) refl

parse-set :
    (did : Text) (sam_did : Option Text) (key value : Text)
    → names_ok did sam_did ≡ true
    → IsWord key
    → IsWord value
    → parse (Command.set did sam_did key value) ≡ Command.set did sam_did key value
unfolding parse check
parse-set did sam_did key value valid_names k v =
    ground (arith, is_not_empty-IsWord key k, is_not_empty-IsWord value v)

set-words :
    (did : Text) (sam_did : Option Text) (key value : Text)
    → All IsWord (words_of (Command.set did sam_did key value))
    → IsWord key × IsWord value
set-words did none key value h = (h.1.1.0, h.1.1.1.0)
set-words did (some owner) key value h = (h.1.1.1.0, h.1.1.1.1.0)

main_loop-continued :
    (out : Outside) (cmd : Option Text) (cmds : List (Option Text)) (w : World) (tasks : List Task)
    (w' : World)
    → round out cmd w ≡ (continued tasks, w')
    → (main_loop out (cmd ∷ cmds) w).1 ≡ (main_loop out cmds w').1
unfolding main_loop
main_loop-continued out cmd cmds w tasks w' e =
    ap (λ (r : Round × World). (after_round (main_loop out cmds) r.0 r.1).1) e

-- A line that could not be read, or that is no command, or whose command does not pass the parse.
abbrev pub IsIdle : Option Text → Type 0
IsIdle none = Unit {0}
IsIdle (some cmd) = parse (pckg_raw_cmd cmd) ≡ Command.invalid

round-IsIdle :
    (out : Outside) (cmd : Option Text) (w : World)
    → IsIdle cmd
    → round out cmd w ≡ (continued [], w)
unfolding round execute
round-IsIdle out none w h = refl
round-IsIdle out (some cmd) w h = elim (Bool-cases (is_invalid (pckg_raw_cmd cmd))) [
  | inl no_command ↦ rw no_command refl
  | inr typed ↦ rw (typed, h) refl
]

main_loop-IsIdle :
    (out : Outside) (cmds rest : List (Option Text)) (w : World)
    → All IsIdle cmds
    → main_loop out (cmds ++ rest) w ≡ main_loop out rest w
unfolding main_loop
main_loop-IsIdle out [] rest w h = refl
main_loop-IsIdle out (cmd ∷ cmds) rest w h =
    ap (λ (r : Round × World). after_round (main_loop out (cmds ++ rest)) r.0 r.1)
      (round-IsIdle out cmd w h.0)
    ∙ main_loop-IsIdle out cmds rest w h.1

main_loop_only-IsIdle :
    (out : Outside) (cmds : List (Option Text)) (w : World)
    → All IsIdle cmds
    → (main_loop out cmds w).1 ≡ w
unfolding main_loop
main_loop_only-IsIdle out [] w h = refl
main_loop_only-IsIdle out (cmd ∷ cmds) w h =
    main_loop-continued out cmd cmds w [] w (round-IsIdle out cmd w h.0)
    ∙ main_loop_only-IsIdle out cmds w h.1

-- When an operator has typed a `set` line, whose names, key and value are words, a client who then
-- reads the key gets the value, whatever lines without an effect the operator typed before and after
-- it: lines that cannot be read, are no command, or do not pass the parse. The names pass the parse,
-- the application is loaded, no initialization is going on, nothing is cached for the key, and the
-- owner's entry is accessible.
pub main_loop-set :
    (out : Outside) (did : Text) (sam_did : Option Text) (key value : Text)
    (before after : List (Option Text)) (w : World)
    → All IsIdle before
    → All IsIdle after
    → names_ok did sam_did ≡ true
    → All IsWord (words_of (Command.set did sam_did key value))
    → is_some (Dict.lookup did w.state.applications) ≡ true
    → w.initialization_complete ≡ true
    → cached did sam_did key w.state.cache ≡ none
    → access_of did (unwrap_or sam_did did) w.state ≡ true
    → (get_db_value did sam_did key
        (main_loop out (before ++ line (Command.set did sam_did key value) ∷ after) w).1).0
      ≡ ok (bake_response (get key value))
unfolding is_invalid execute
main_loop-set out did sam_did key value before after w idle_before idle_after valid_names
      typed_words known complete uncached open_access =
    ap (λ (r : List Task × World). (get_db_value did sam_did key r.1).0)
      (main_loop-IsIdle out before (line c ∷ after) w idle_before)
    ∙ ap (λ w'. (get_db_value did sam_did key w').0)
        (after_set
          ∙ main_loop_only-IsIdle out after (set_db_value did sam_did key value w).1 idle_after)
    ∙ get_db_value-set_db_value did sam_did key value w known complete uncached open_access
  where
    c : Command
    c = Command.set did sam_did key value

    after_set :
        (main_loop out (line c ∷ after) w).1
        ≡ (main_loop out after (set_db_value did sam_did key value w).1).1
    after_set =
        let (k, v) = set-words did sam_did key value typed_words in
        main_loop-continued out (line c) after w [] (set_db_value did sam_did key value w).1 (
          round-line out c w refl refl typed_words
            (parse-set did sam_did key value valid_names k v))
