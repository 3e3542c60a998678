-- ===== src/Server/Requests.antt =====
-- Whole requests, from the client's data to the reply.
use samaritan_db.Database.Set.Effect.{Stores, set_db_value-Stores}
use samaritan_db.Database.ReadWrite.{get_db_value-set_db_value}
use samaritan_db.Prelude.{
  refl, ap, inl, inr, true, Option, none, some, arith, Option-cases, unwrap_or, is_some, [], ◌≡◌,
  ◌∙◌, ◌≢◌, ◌∷◌,
}
use samaritan_db.Text.{Text, codes, eq_iff, eq_refl, ◌==◌}
use samaritan_db.Dict.{Dict}
use samaritan_db.Database.Set.{set_db_value}
use samaritan_db.Command.Parse.{is_not_empty}
use samaritan_db.Database.View.{access_of}
use samaritan_db.Database.Get.{cached}
use samaritan_db.Server.Writes.{
  IsItem, separate_lem, get_request-get_db_value, insert_request-set_db_value,
}
use samaritan_db.Server.Runs.{AreNames}
use samaritan_db.Dict
use samaritan_db.Database.Reply.{
  bake_error, authentication_error, get, empty, bake_response, ok, result_value,
}
use samaritan_db.Database.World.{World}
use samaritan_db.Database.Init.{Outside}
use samaritan_db.Server.{
  plain, ServerIncomingData, handle_client_req, internal_server_error, server_command, quoted,
  parse_request, success, get_items, insert_items, serve, non_empty, respond,
}

parse_request_refuses :
    (input : ServerIncomingData) (known : Dict Text)
    → Dict.lookup input.did known ≢ some input.password
    → parse_request input known ≡ none
unfolding parse_request
parse_request_refuses input known wrong = elim (Option-cases (Dict.lookup input.did known)) [
  | inl missing ↦ ground arith
  | inr (p, there) ↦ ground (arith, eq_iff p input.password)
]

parse_request_accepts :
    (input : ServerIncomingData) (known : Dict Text)
    → Dict.lookup input.did known ≡ some input.password
    → parse_request input known ≡ some (server_command input)
unfolding parse_request
parse_request_accepts input known right = ground (arith, eq_refl input.password)

-- Without the password that the node keeps for the application a request is refused, whatever it
-- asks for, and nothing changes.
pub handle_client_req_refuses :
    (out : Outside) (input : ServerIncomingData) (w : World)
    → Dict.lookup input.did w.state.authenticated ≢ some input.password
    → handle_client_req out input w
      ≡ (internal_server_error (plain (bake_error authentication_error)), w)
unfolding handle_client_req
handle_client_req_refuses out input w wrong =
    ground (arith, parse_request_refuses input w.state.authenticated wrong)

-- The requests of a client that stores one value, and of one that reads it.
abbrev pub insert_one : Text → Text → Text → Text → Text → ServerIncomingData
insert_one did password sam_did key value = record {
  did = did;
  password = password;
  command = codes "insert";
  data_items = key ∷ codes "::" ∷ value ∷ [];
  sam_did = sam_did;
}

abbrev pub get_one : Text → Text → Text → Text → ServerIncomingData
get_one did password sam_did key = record {
  did = did;
  password = password;
  command = codes "get";
  data_items = key ∷ [];
  sam_did = sam_did;
}

handle_client_req_lem :
    (out : Outside) (input : ServerIncomingData) (w : World)
    → Dict.lookup input.did w.state.authenticated ≡ some input.password
    → handle_client_req out input w ≡ serve out (server_command input) w
unfolding handle_client_req
handle_client_req_lem out input w known =
    ground (arith, parse_request_accepts input w.state.authenticated known)

server_command-insert_one :
    (did password sam_did key value : Text)
    → IsItem key
    → IsItem value
    → server_command (insert_one did password sam_did key value)
      ≡ insert_items did (key ∷ []) (value ∷ []) (non_empty sam_did)
unfolding server_command ◌==◌
server_command-insert_one did password sam_did key value h k =
    ap (λ p. insert_items did p.0 p.1 (non_empty sam_did))
      (separate_lem (key ∷ []) (value ∷ []) (h, tt) (k, tt))

server_command-get_one :
    (did password sam_did key : Text)
    → server_command (get_one did password sam_did key)
      ≡ get_items did (key ∷ []) (non_empty sam_did)
unfolding server_command ◌==◌
server_command-get_one did password sam_did key = refl

-- A client that knows the application's password stores a value with one request and reads it back
-- with the next, once the initialization is over: if the names are accepted, neither key nor value
-- is empty or the separator, nothing is cached for the key, and the owner's data is accessible.
pub handle_client_req-handle_client_req :
    (out : Outside) (did password sam_did key value : Text) (w : World)
    → Dict.lookup did w.state.authenticated ≡ some password
    → AreNames did (non_empty sam_did)
    → (is_not_empty key ≡ true) × (IsItem key × ((is_not_empty value ≡ true) × IsItem value))
    → is_some (Dict.lookup did w.state.applications) ≡ true
    → w.initialization_complete ≡ true
    → cached did (non_empty sam_did) key w.state.cache ≡ none
    → access_of did (unwrap_or (non_empty sam_did) did) w.state ≡ true
    → let (r1, w1) = handle_client_req out (insert_one did password sam_did key value) w in
      let (r2, w2) = handle_client_req out (get_one did password sam_did key) w1 in
      (r1 ≡ success (quoted (bake_response empty)))
      × (r2 ≡ success (quoted (bake_response (get key value))))
unfolding serve respond bake_response
handle_client_req-handle_client_req out did password sam_did key value w known are items initialized
      complete uncached open_access =
    (
      ap (λ r. r.0) insert_handled,
      ap (λ r. (handle_client_req out (get_one did password sam_did key) r.1).0) insert_handled
          ∙ ap (λ r. r.0) get_handled,
    )
  where
    owner : Option Text
    owner = non_empty sam_did

    after : World
    after = (set_db_value did owner key value w).1

    stores :
        ((set_db_value did owner key value w).0 ≡ ok (bake_response empty))
        × Stores did (unwrap_or owner did) key value w after
    stores = set_db_value-Stores did owner key value w initialized complete

    insert_handled :
        handle_client_req out (insert_one did password sam_did key value) w
        ≡ (success (quoted (bake_response empty)), after)
    insert_handled =
        handle_client_req_lem out (insert_one did password sam_did key value) w known
        ∙ ap (λ c. serve out c w)
            (server_command-insert_one did password sam_did key value items.1.0 items.1.1.1)
        ∙ insert_request-set_db_value out did owner key value w are items.0 items.1.1.0
        ∙ ap (λ r. (respond (result_value r), after)) stores.0

    get_handled :
        handle_client_req out (get_one did password sam_did key) after
        ≡ (success (quoted (bake_response (get key value))), after)
    get_handled =
        handle_client_req_lem out (get_one did password sam_did key) after
          (ap (Dict.lookup did) stores.1.authenticated ∙ known)
        ∙ ap (λ c. serve out c after) (server_command-get_one did password sam_did key)
        ∙ get_request-get_db_value out did owner key after are items.0
        ∙ ap (λ r. (respond (result_value r), after))
            (get_db_value-set_db_value did owner key value w initialized complete uncached
              open_access)
