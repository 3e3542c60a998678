-- ===== src/Database/Reply.antt =====
-- `DbError` and `DbServerResponse` of database/src/prelude.rs, and the JSON values that `bake_error`
-- and `bake_response` of database/src/util.rs build from them.
use samaritan_db.Prelude.{ℕ, Bool, Option, none, some}
use samaritan_db.Text.{Text, codes}

pub data DbError : Type 0 where
  authentication_error access_denied entry_not_found invalid_command command_parse_error : DbError
  decryption_error encryption_error ipfs_read_error invalid_password_error : DbError
  initialization_error parse_error : DbError

-- `Display` for `DbError`
unfoldable pub to_string : DbError → Text
to_string authentication_error = codes "Client authenticated failed."
to_string access_denied = codes "Access to data entry denied."
to_string entry_not_found = codes "Entry not found in database."
to_string invalid_command = codes "Unrecognized command specified."
to_string command_parse_error = codes "You have an error in your command syntax."
to_string decryption_error = codes "Failed to decrypt file."
to_string encryption_error = codes "Failed to encrypt file."
to_string ipfs_read_error = codes "Failed to read meaningful data from IPFS."
to_string invalid_password_error = codes "Incorrect mnemonic composition."
to_string initialization_error = codes "Failed to initialize application"
to_string parse_error = codes "Parse operation failed"

pub data DbServerResponse : Type 0 where
  empty : DbServerResponse
  exists : Bool → DbServerResponse
  get : Text → Text → DbServerResponse
  keys : Text → DbServerResponse

-- The JSON values of the program: `null`, an object with an error and a status, and an object with
-- status 200 and the data of a response.
pub data Value : Type 0 where
  null : Value
  error_object : Text → ℕ → Value
  data_object : DbServerResponse → Value

abbrev pub status_code : DbError → ℕ
status_code initialization_error = 104
status_code command_parse_error = 115
status_code access_denied = 120
status_code entry_not_found = 404
status_code _ = 500

unfoldable pub bake_error : DbError → Value
bake_error err = error_object (to_string err) (status_code err)

unfoldable pub bake_response : DbServerResponse → Value
bake_response res = data_object res

-- The member "status" of a value, if it has one.
abbrev pub status : Value → Option ℕ
status null = none
status (error_object _ code) = some code
status (data_object _) = some 200

-- `Result<Value, Value>`
pub data DbServerResult : Type 0 where
  ok : Value → DbServerResult
  err : Value → DbServerResult

abbrev pub result_value : DbServerResult → Value
result_value (ok v) = v
result_value (err v) = v
