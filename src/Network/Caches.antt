-- ===== src/Network/Caches.antt =====
-- `SeenMsgs` and `MessageCache` of database/src/network.rs. A message's id is the text of its bytes.
pub mod Window
pub mod Messages
use samaritan_db.Prelude.{
  reverse, filter, ℕ, Option, none, some, List, ltb, leb, unwrap_or, is_some, length, take, drop,
  [], ◌-◌, ◌∷◌, ◌++◌, if◌then◌else◌,
}
use samaritan_db.Text.{Text}
use samaritan_db.Dict.{Dict}
use samaritan_db.Dict

abbrev pub mcache_len : ℕ
mcache_len = 890

-- `SeenMsgs` is its one field, the oldest id first.
abbrev pub SeenMsgs : Type 0
SeenMsgs = List Text

unfoldable pub add_data : Text → SeenMsgs → SeenMsgs
add_data message_id msgs =
    let rest : SeenMsgs = if leb mcache_len (length msgs) then drop 1 msgs else msgs in
    rest ++ (message_id ∷ [])

pub record MessageCache : Type 0 where
  pub topic_data : Dict (Dict Text)
  pub current_window : List Text

abbrev pub new_cache : MessageCache
new_cache = record { topic_data = []; current_window = [] }

unfoldable pub put : Text → Text → Text → MessageCache → MessageCache
put topic message_id message_data c =
    let topic_map : Dict Text = unwrap_or (Dict.lookup topic c.topic_data) [] in
    let window : List Text = c.current_window ++ (message_id ∷ []) in
    record {
      topic_data = Dict.insert topic (Dict.insert message_id message_data topic_map) c.topic_data;
      current_window = if ltb mcache_len (length window) then drop 1 window else window;
    }

unfoldable pub get_message : Text → Text → MessageCache → Option Text
get_message topic message_id c = elim (Dict.lookup topic c.topic_data) [
  | some topic_map ↦ Dict.lookup message_id topic_map
  | none ↦ none
]

unfoldable pub get_gossip_ids : Text → ℕ → MessageCache → List Text
unfolding get_message
get_gossip_ids topic mcache_gossip c =
    filter (λ id. is_some (get_message topic id c)) (take mcache_gossip (reverse c.current_window))

unfoldable pub shift : MessageCache → MessageCache
shift c =
    if ltb mcache_len (length c.current_window)
    then record c { current_window = drop (length c.current_window - mcache_len) c.current_window }
    else c
