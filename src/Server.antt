-- ===== src/Server.antt =====
-- `handle_client_req` of database/src/server.rs: the requests of application clients.
pub mod Runs
pub mod Reads
pub mod Writes
pub mod Requests
pub mod Loops
use samaritan_db.Prelude.{
  zip, ℕ, Bool, true, false, not, Option, none, some, List, map, ltb, num_eq, length, is_empty, [],
  ◌+◌, ◌&&◌, ◌∷◌, ◌++◌, if◌then◌else◌,
}
use samaritan_db.Text.{Text, codes, ◌==◌}
use samaritan_db.Dict.{Dict}
use samaritan_db.Database.World.{◌>>=◌, ◌>>◌}
use samaritan_db.Dict
use samaritan_db.Command.Execute.{execute, exited, returned, Execution}
use samaritan_db.Command.Parse.{parse}
use samaritan_db.Database.Reply.{
  bake_response, bake_error, status, get, null, command_parse_error, data_object, empty,
  authentication_error, Value,
}
use samaritan_db.Database.World.{pure, gets, M}
use samaritan_db.Database.Init.{Outside}
use samaritan_db.Command.{Command}

pub record ServerIncomingData : Type 0 where
  pub did : Text
  pub password : Text
  pub command : Text
  pub data_items : List Text
  pub sam_did : Text

pub data DbServerCommand : Type 0 where
  insert_items : Text → List Text → List Text → Option Text → DbServerCommand
  get_items : Text → List Text → Option Text → DbServerCommand
  del_items : Text → List Text → Option Text → DbServerCommand
  invalid_request : DbServerCommand

-- A body is a JSON value, or a JSON string that holds the print of one. The reply to several reads
-- lists the keys and the values, a value that is missing as `null`.
pub data Body : Type 0 where
  plain quoted : Value → Body
  quoted_values : List Text → List (Option Text) → Body

pub data HttpResponse : Type 0 where
  success internal_server_error : Body → HttpResponse

-- The loop that tells keys from values: the separator turns the flag, and is dropped.
unfoldable pub separate : Bool → List Text → List Text × List Text
separate is_key [] = ([], [])
separate is_key (item ∷ items) = elim (item == codes "::") [
  | true ↦ separate false items
  | false ↦
      let rest = separate is_key items in
      if is_key then (item ∷ rest.0, rest.1) else (rest.0, item ∷ rest.1)
]

abbrev pub non_empty : Text → Option Text
non_empty s = if is_empty s then none else some s

unfoldable pub server_command : ServerIncomingData → DbServerCommand
unfolding separate
server_command input =
    if input.command == codes "insert"
    then (let (key_list, values) = separate true input.data_items in
        insert_items input.did key_list values (non_empty input.sam_did))
    else (if input.command == codes "get"
        then get_items input.did input.data_items (non_empty input.sam_did)
        else (if input.command == codes "del"
            then del_items input.did input.data_items (non_empty input.sam_did)
            else invalid_request))

-- A request is read only with the password that the node keeps for the application.
unfoldable pub parse_request : ServerIncomingData → Dict Text → Option DbServerCommand
unfolding server_command
parse_request input known = elim (Dict.lookup input.did known) [
  | some password ↦ if password == input.password then some (server_command input) else none
  | none ↦ none
]

-- `cmd.parse().execute(...)`: the server makes only set, get and del, which never end the process.
abbrev pub value_left : Execution → Value
value_left (returned v _) = v
value_left exited = null

unfoldable pub run : Outside → Command → M Value
run out cmd = do execution ← execute out (parse cmd); pure (value_left execution)

-- `db_result["status"] == code`
abbrev pub has_status : ℕ → Value → Bool
has_status code v = elim (status v) [ some c ↦ num_eq c code | none ↦ false ]

abbrev pub is_null : Value → Bool
is_null null = true
is_null _ = false

-- The reply to one operation.
unfoldable pub respond : Value → HttpResponse
respond v = if has_status 200 v then success (quoted v) else internal_server_error (quoted v)

-- The reply that leaves the loop at once: to a request for one operation that has a result.
abbrev pub reply_now : Bool → Value → Option HttpResponse
reply_now single v = if not (is_null v) && single then some (respond v) else none

-- The number of failures and the last one.
abbrev pub Failures : Type 0
Failures = ℕ × Value

abbrev pub tally : Value → Failures → Failures
tally v failures =
    if not (is_null v) && not (has_status 200 v) then (failures.0 + 1, v) else failures

-- How the loop over the commands of a request ends.
pub data Looped : Type 0 where
  replied : HttpResponse → Looped
  counted : Failures → Looped

-- The loop of the requests that write.
unfoldable pub write_loop : Outside → Bool → Failures → List Command → M Looped
write_loop out single failures [] = pure (counted failures)
write_loop out single failures (cmd ∷ cmds) = do
  db_result ← run out cmd
  elim (reply_now single db_result) [
    | some response ↦ pure (replied response)
    | none ↦ write_loop out single (tally db_result failures) cmds
  ]

-- The reply after the loop.
unfoldable pub summary : Bool → Looped → HttpResponse
summary several (replied response) = response
summary several (counted failures) =
    if several && not (num_eq failures.0 0)
    then internal_server_error (quoted failures.1)
    else success (quoted (bake_response empty))

abbrev pub none_yet : Failures
none_yet = (0, null)

unfoldable pub insert_request :
    Outside → Text → List Text → List Text → Option Text → M HttpResponse
unfolding write_loop summary
insert_request out did key_list values sam_did = do
  looped ←
      write_loop out (num_eq (length values) 1) none_yet
        (map (λ e. Command.set did sam_did e.0 e.1) (zip key_list values))
  pure (summary (ltb 1 (length values)) looped)

unfoldable pub del_request : Outside → Text → List Text → Option Text → M HttpResponse
unfolding write_loop summary
del_request out did key_list sam_did = do
  looped ←
      write_loop out (num_eq (length key_list) 1) none_yet
        (map (λ key. Command.del did sam_did key) key_list)
  pure (summary (ltb 1 (length key_list)) looped)

-- `db_result["data"]["value"]`
abbrev pub value_member : Value → Option Text
value_member (data_object (get _ value)) = some value
value_member _ = none

-- The loop of the reads: the failures, and the values in order.
pub data Read : Type 0 where
  read_one : HttpResponse → Read
  read_all : Failures → List (Option Text) → Read

-- Whether a result counts as a failure of a read: the code excepts the status 127.
abbrev pub is_failure : Value → Bool
is_failure v = not (has_status 200 v) && not (has_status 127 v)

abbrev pub tally_read : Value → Failures → Failures
tally_read v failures = if not (is_null v) && is_failure v then (failures.0 + 1, v) else failures

abbrev pub push_value : Value → List (Option Text) → List (Option Text)
push_value v values =
    if not (is_null v) && not (is_failure v) then values ++ (value_member v ∷ []) else values

unfoldable pub read_loop :
    Outside → Bool → Text → Option Text → Failures → List (Option Text) → List Text → M Read
read_loop out single did sam_did failures values [] = pure (read_all failures values)
read_loop out single did sam_did failures values (key ∷ key_list) = do
  db_result ← run out (Command.get did sam_did key)
  elim (reply_now single db_result) [
    | some response ↦ pure (read_one response)
    | none ↦
        read_loop out single did sam_did (tally_read db_result failures)
          (push_value db_result values) key_list
  ]

unfoldable pub read_summary : List Text → Read → HttpResponse
read_summary key_list (read_one response) = response
read_summary key_list (read_all failures values) =
    if ltb 1 (length key_list)
    then (if not (num_eq failures.0 0)
        then internal_server_error (quoted failures.1)
        else success (quoted_values key_list values))
    else success (quoted (bake_response empty))

unfoldable pub get_request : Outside → Text → List Text → Option Text → M HttpResponse
unfolding read_loop read_summary
get_request out did key_list sam_did = do
  outcome ← read_loop out (num_eq (length key_list) 1) did sam_did none_yet [] key_list
  pure (read_summary key_list outcome)

unfoldable pub serve : Outside → DbServerCommand → M HttpResponse
unfolding insert_request get_request del_request
serve out (insert_items did key_list values sam_did) =
    insert_request out did key_list values sam_did
serve out (get_items did key_list sam_did) = get_request out did key_list sam_did
serve out (del_items did key_list sam_did) = del_request out did key_list sam_did
serve out invalid_request = pure (internal_server_error (plain (bake_error command_parse_error)))

unfoldable pub handle_client_req : Outside → ServerIncomingData → M HttpResponse
unfolding parse_request serve
handle_client_req out input = do
  request ← gets (λ s. parse_request input s.authenticated)
  elim request [
    | some cmd ↦ serve out cmd
    | none ↦ pure (internal_server_error (plain (bake_error authentication_error)))
  ]
