-- ===== src/Tests/Server.antt =====
-- Requests of clients at a concrete node.
use samaritan_db.Database.Get.Visible.{visible}
use samaritan_db.Prelude.{refl, true, none, some, arith, [], ◌≡◌, ◌↔◌, ◌∷◌}
use samaritan_db.Text.{contains, Text, codes, starts_with, ◌==◌}
use samaritan_db.Dict.{Dict}
use samaritan_db.Dict
use samaritan_db.Text.Split.{strip_prefix, split, split_from}
use samaritan_db.Command.Parse.{remove_cli_prefix, is_did, last_or_default}
use samaritan_db.Database.Reply.{bake_response, empty, get, Value}
use samaritan_db.Database.Get.{cached}
use samaritan_db.Server.Reads.{get_request-visible}
use samaritan_db.Server.Writes.{insert_request_refused}
use samaritan_db.Server.Requests.{get_one, insert_one, handle_client_req-handle_client_req}
use samaritan_db.Tests.Data.{shop_node, shop, name, fresh, node, generous, old}
use samaritan_db.Server.{
  get_request, success, quoted, quoted_values, handle_client_req, insert_request,
  internal_server_error,
}

handle_client_req-handle_client_req_example :
    let (r1, w1) =
      handle_client_req generous (insert_one shop (codes "pw") [] name fresh) shop_node in
    let (r2, w2) = handle_client_req generous (get_one shop (codes "pw") [] name) w1 in
    (r1 ≡ success (quoted (bake_response empty)))
    × (r2 ≡ success (quoted (bake_response (get name fresh))))
unfolding Dict.lookup ◌==◌ cached is_did starts_with remove_cli_prefix last_or_default split
    split_from strip_prefix
handle_client_req-handle_client_req_example =
    handle_client_req-handle_client_req generous shop (codes "pw") [] name fresh shop_node refl refl
      (refl, (refl, (refl, refl))) refl refl refl refl

get_request-visible_example :
    (((get_request generous shop (name ∷ name ∷ []) none shop_node).0
        ≡ success (quoted_values (name ∷ name ∷ []) (some old ∷ some old ∷ [])))
      ↔ (some old ∷ some old ∷ [] ≡ some old ∷ some old ∷ []))
    × ((key : Text)
        → contains (name ∷ name ∷ []) key ≡ true
        → visible shop none key shop_node.state ≡ none
        → (e : Value) × ((get_request generous shop (name ∷ name ∷ []) none shop_node).0
            ≡ internal_server_error (quoted e)))
    × ((get_request generous shop (name ∷ name ∷ []) none shop_node).1 ≡ shop_node)
unfolding Dict.lookup ◌==◌ cached is_did starts_with remove_cli_prefix last_or_default split
    split_from strip_prefix
get_request-visible_example =
    get_request-visible generous shop none shop_node refl (name ∷ name ∷ []) (old ∷ old ∷ [])
      (refl, (refl, tt)) (omega arith)

insert_request_refused_example :
    insert_request generous (codes "shop") (name ∷ []) (fresh ∷ []) none node
    ≡ (success (quoted (bake_response empty)), node)
unfolding is_did starts_with remove_cli_prefix last_or_default split split_from strip_prefix
insert_request_refused_example =
    insert_request_refused generous (codes "shop") none (name ∷ []) (fresh ∷ []) node refl
