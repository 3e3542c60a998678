-- ===== src/Command.antt =====
-- The commands of database/src/prelude.rs, and their reading in database/src/cli.rs.
pub mod Parse
pub mod Raw
pub mod Execute
use samaritan_db.Prelude.{ℕ, Option}
use samaritan_db.Text.{Text}

-- `Command`; the application's name comes first, an optional owner second.
pub data Command : Type 0 where
  info quit help invalid : Command
  init : Text → Text → Command
  set : Text → Option Text → Text → Text → Command
  get : Text → Option Text → Text → Command
  del : Text → Option Text → Text → Command
  exists : Text → Option Text → Text → Command
  keys : Text → Option Text → Option ℕ → Option ℕ → Command
  truncate : Text → Option Text → Command
  leave : Text → Text → Command
  config : Text → Text → Text → Command
