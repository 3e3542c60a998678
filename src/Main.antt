-- ===== src/Main.antt =====
-- The loop of database/src/main.rs, which reads the operator's lines. Other tasks of the node are not
-- run in between.
pub mod Lines
pub mod Reached
use samaritan_db.Prelude.{Bool, true, false, Option, none, some, List, [], ◌∷◌, ◌++◌, if◌then◌else◌}
use samaritan_db.Text.{Text}
use samaritan_db.Command.Execute.{execute, exited, Execution, returned}
use samaritan_db.Command.Parse.{parse}
use samaritan_db.Command.Raw.{pckg_raw_cmd}
use samaritan_db.Database.World.{pure, M, ◌>>=◌}
use samaritan_db.Database.Init.{Outside, Task}
use samaritan_db.Command.{Command}

-- What one round of the loop leaves: the tasks that its command started, or the end of the process.
-- The results of the commands are discarded.
pub data Round : Type 0 where
  continued : List Task → Round
  stopped : Round

-- `matches!(command, Command::Invalid)`
unfoldable pub is_invalid : Command → Bool
is_invalid Command.invalid = true
is_invalid _ = false

-- `let _ = ...execute(...)`
abbrev pub discard : Execution → Round
discard (returned _ tasks) = continued tasks
discard exited = stopped

unfoldable pub round : Outside → Option Text → M Round
round out none = pure (continued [])
round out (some cmd) =
    let command = pckg_raw_cmd cmd in
    if is_invalid command
    then pure (continued [])
    else (do execution ← execute out (parse command); pure (discard execution))

-- The rest of the loop after a round: the tasks of both, or the end.
abbrev pub after_round : M (List Task) → Round → M (List Task)
after_round rest (continued tasks) = do others ← rest; pure (tasks ++ others)
after_round rest stopped = pure []

-- The tasks started by a list of lines, to its end or to the end of the process.
unfoldable pub main_loop : Outside → List (Option Text) → M (List Task)
main_loop out [] = pure []
main_loop out (cmd ∷ cmds) = do
  let rest = main_loop out cmds
  done ← round out cmd
  after_round rest done
