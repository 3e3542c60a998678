-- ===== src/Command/Execute.antt =====
-- `Command::execute` of database/src/prelude.rs, with `get_db_info`, `shutdown_db` and
-- `change_db_cfg`.
use samaritan_db.Prelude.{List, unwrap_or, [], if◌then◌else◌}
use samaritan_db.Text.{Text, codes, ◌==◌}
use samaritan_db.Database.World.{◌>>=◌, ◌>>◌}
use samaritan_db.Database.Reply.{Value, null, DbServerResult, result_value}
use samaritan_db.Database.Set.{set_db_value}
use samaritan_db.Database.Del.{del_db_value, truncate_db_keys}
use samaritan_db.Database.Keys.{get_db_keys}
use samaritan_db.Database.World.{M, shutdown, pure, change_pinning_server, send, db_info}
use samaritan_db.Database.Init.{Outside, init_application, forget_application, Task}
use samaritan_db.Database.Get.{check_db_key_existence, get_db_value}
use samaritan_db.Command.{Command}

-- What the execution of a command leaves: a JSON value and the tasks that it spawned, or the end of
-- the process.
pub data Execution : Type 0 where
  returned : Value → List Task → Execution
  exited : Execution

unfoldable pub get_db_info : M (Unit {0})
get_db_info = send db_info

-- The network's answer ends the process; without one the shutdown is given up.
unfoldable pub shutdown_db : Outside → M Execution
shutdown_db out = do send shutdown; pure (if out.reply shutdown then exited else returned null [])

-- Any other flag is ignored.
unfoldable pub change_db_cfg : Text → Text → Text → M (Unit {0})
change_db_cfg did flag param =
    if flag == codes "-url" then send (change_pinning_server did param) else pure tt

-- Results and errors alike are returned as JSON.
abbrev pub answer : DbServerResult → Execution
answer result = returned (result_value result) []

unfoldable pub execute : Outside → Command → M Execution
unfolding get_db_info shutdown_db change_db_cfg
execute out Command.info = do get_db_info; pure (returned null [])
execute out Command.help = pure (returned null [])
execute out Command.quit = shutdown_db out
execute out (Command.init did mnemonic) = do
  tasks ← init_application out did mnemonic
  pure (returned null tasks)
execute out (Command.set did sam_did key value) = do
  result ← set_db_value did sam_did key value
  pure (answer result)
execute out (Command.get did sam_did key) = do
  result ← get_db_value did sam_did key
  pure (answer result)
execute out (Command.del did sam_did key) = do
  result ← del_db_value did sam_did key
  pure (answer result)
execute out (Command.exists did sam_did key) = do
  result ← check_db_key_existence did sam_did key
  pure (answer result)
execute out (Command.keys did sam_did offset len) = do
  result ← get_db_keys did sam_did (unwrap_or offset 0) (unwrap_or len 50)
  pure (answer result)
execute out (Command.truncate did sam_did) = do
  result ← truncate_db_keys did sam_did
  pure (answer result)
execute out (Command.leave did mnemonic) = do
  forget_application out did mnemonic
  pure (returned null [])
execute out (Command.config did flag param) = do
  change_db_cfg did flag param
  pure (returned null [])
execute out Command.invalid = pure (returned null [])
