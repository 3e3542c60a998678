-- ===== src/Server/Runs.antt =====
-- What one operation of a request does, from the command to its JSON value.
use samaritan_db.Prelude.{ap, true, false, Option, none, some, arith, ◌≡◌}
use samaritan_db.Text.{Text}
use samaritan_db.Dict.{Dict}
use samaritan_db.Database.DataMap
use samaritan_db.Dict
use samaritan_db.Command.Execute.{execute}
use samaritan_db.Command.Parse.{names_ok, parse, is_not_empty, check}
use samaritan_db.Database.Get.Visible.{visible}
use samaritan_db.Database.Reply.{get, result_value, bake_response, null, bake_error, Value}
use samaritan_db.Database.Set.{set_db_value}
use samaritan_db.Database.World.{World}
use samaritan_db.Database.Init.{Outside}
use samaritan_db.Database.Get.{get_db_value}
use samaritan_db.Server.{is_null, run, is_failure, value_left}
use samaritan_db.Command.{Command}

-- What `parse` asks of the names of a request.
abbrev pub AreNames : Text → Option Text → Type 0
AreNames did sam_did = names_ok did sam_did ≡ true

run-parse :
    (out : Outside) (c d : Command) (w : World)
    → parse c ≡ d
    → run out c w ≡ (value_left (execute out d w).0, (execute out d w).1)
unfolding run
run-parse out c d w h = ap (λ e. (value_left (execute out e w).0, (execute out e w).1)) h

pub run-get :
    (out : Outside) (did : Text) (sam_did : Option Text) (key : Text) (w : World)
    → AreNames did sam_did
    → is_not_empty key ≡ true
    → run out (Command.get did sam_did key) w ≡ (result_value (get_db_value did sam_did key w).0, w)
unfolding parse check execute get_db_value
run-get out did sam_did key w names nonempty = run-parse out c c w (ground arith)
  where
    c : Command
    c = Command.get did sam_did key

pub run-set :
    (out : Outside) (did : Text) (sam_did : Option Text) (key value : Text) (w : World)
    → AreNames did sam_did
    → is_not_empty key ≡ true
    → is_not_empty value ≡ true
    → run out (Command.set did sam_did key value) w ≡ (
      result_value (set_db_value did sam_did key value w).0,
      (set_db_value did sam_did key value w).1,
    )
unfolding parse check execute
run-set out did sam_did key value w names k v = run-parse out c c w (ground arith)
  where
    c : Command
    c = Command.set did sam_did key value

-- A command whose names are refused does nothing, and has no result.
pub run_refused :
    (out : Outside) (did : Text) (sam_did : Option Text) (key value : Text) (w : World)
    → names_ok did sam_did ≡ false
    → run out (Command.set did sam_did key value) w ≡ (null, w)
unfolding parse check execute
run_refused out did sam_did key value w refused =
    run-parse out (Command.set did sam_did key value) Command.invalid w (ground arith)

-- The value of a read, against what is visible: that value, or else an error that counts as a
-- failure.
abbrev pub Answers : Text → Option Text → Value → Type 0
Answers key (some value) v = v ≡ bake_response (get key value)
Answers key none v = (is_null v ≡ false) × (is_failure v ≡ true)

pub result_value-Answers :
    (did : Text) (sam_did : Option Text) (key : Text) (w : World)
    → Answers key
        (visible did sam_did key w.state)
        (result_value (get_db_value did sam_did key w).0)
unfolding get_db_value bake_response bake_error DataMap.get_data DataMap.get_access_state
    Dict.lookup
result_value-Answers did sam_did key w = ground arith
