-- ===== src/Network/Requests.antt =====
-- The handlers of requests and responses between peers in `NetworkClient::run` of
-- database/src/network.rs.
pub mod Given
pub mod Wanted
use samaritan_db.Prelude.{
  filter, ℕ, not, none, some, List, unwrap_or, is_some, is_empty, [], ◌&&◌, ◌∷◌, if◌then◌else◌,
}
use samaritan_db.Text.{contains, Text, ◌==◌}
use samaritan_db.Dict.{Dict}
use samaritan_db.Dict
use samaritan_db.Text.Number.{parse_uint, u8_limit}
use samaritan_db.Text.Utf8.{from_utf8}
use samaritan_db.Text.Split.{split}
use samaritan_db.Network.Caches.Messages.{ids}
use samaritan_db.Network.State.{
  deserialize, i_give, prune, sync, SerializedGossipPeer, Libp2p, i_have, i_want, Rpc, graft,
}
use samaritan_db.Network.Client.{responded, emit, requested_of, rpc_of, Client}
use samaritan_db.Network.Channel.{join_peers}
use samaritan_db.Network.Sync.{sync_received}
use samaritan_db.Network.Message.{
  field_separator, gossip_msg_type, subscribe_msg, get_elem?, data_msg, config_msg, unknown_msg,
  unsubscribe_msg, GossipMsgType,
}
use samaritan_db.Network.Receive.{apply_data, apply_config, with_field, Handler, set_modified}
use samaritan_db.Network.Caches.{get_message}
use samaritan_db.Database.Gossip.{finished, panicked}

-- The first entry of a list; taking it from an empty one panics.
abbrev pub with_first {ℓ} : {A : Type ℓ} → List A → (A → Handler) → Handler
with_first [] k c = (panicked, c)
with_first (x ∷ xs) k c = k x c

-- The ids that this node asks for: those that it has neither seen nor stored.
abbrev pub wanted : Text → List Text → Client → List Text
wanted topic message_ids c =
    filter (λ id. not (contains c.seen_msgs id) && not (is_some (get_message topic id c.msg_cache)))
      message_ids

unfoldable pub on_i_have : Text → List Text → Client → Client
on_i_have topic message_ids c =
    emit (responded (rpc_of c (i_want topic (wanted topic message_ids c)))) c

unfoldable pub on_graft : Libp2p → Text → SerializedGossipPeer → Client → Client
unfolding join_peers deserialize
on_graft net topic peer c = elim (Dict.lookup topic c.gossipsub.mesh_peers) [
  | some mesh_peers ↦ elim (deserialize net peer) [
    | some graft_peer ↦ record c {
      gossipsub = record c.gossipsub {
        mesh_peers =
            Dict.insert topic (join_peers (some graft_peer) mesh_peers) c.gossipsub.mesh_peers;
      };
    }
    | none ↦ c
  ]
  | none ↦ c
]

-- A message that was given on request, by its kind: configurations are not passed on.
unfoldable pub apply_given : GossipMsgType → Text → List Text → Handler
unfolding apply_data apply_config
apply_given data_msg did msg_data c = apply_data did msg_data (set_modified did c)
apply_given config_msg did msg_data c = apply_config did msg_data (λ c. c) c
apply_given subscribe_msg did msg_data c = (finished, c)
apply_given unsubscribe_msg did msg_data c = (finished, c)
apply_given unknown_msg did msg_data c = (finished, c)

-- A kind that cannot be read counts as 0, which is data.
unfoldable pub take_given : List Text → Handler
unfolding apply_given gossip_msg_type
take_given msg_data = with_field 1 msg_data λ did.
    with_field 0 msg_data
      λ code. apply_given (gossip_msg_type (unwrap_or (parse_uint u8_limit code) 0)) did msg_data

unfoldable pub on_given : Text → Handler
unfolding take_given
on_given bytes c = elim (from_utf8 bytes) [
  | some text ↦ take_given (split field_separator text) c
  | none ↦ (finished, c)
]

unfoldable pub on_i_give : List Text → Handler
unfolding on_given
on_i_give [] c = (finished, c)
on_i_give (bytes ∷ messages) c =
    let (ended, c') = on_given bytes c in
    let more = on_i_give messages c' in elim ended [ finished ↦ more | panicked ↦ (panicked, c') ]

abbrev pub on_sync : ℕ → Text → List SerializedGossipPeer → ℕ → Client → Client
on_sync update_count topic peers now c = record c {
  ipfs = sync_received update_count topic peers now c.ipfs;
}

-- A request: only its first control message counts. What `Prune` computes is dropped.
unfoldable pub on_request : Libp2p → ℕ → Rpc → Handler
unfolding on_i_have on_graft on_i_give
on_request net now rpc = with_first rpc.control_msgs λ action. elim action [
  | i_have topic message_ids ↦
      with_first rpc.messages λ _ c. (finished, on_i_have topic message_ids c)
  | i_want topic message_ids ↦ λ c. (finished, c)
  | graft topic peer ↦ λ c. (finished, on_graft net topic peer c)
  | prune topic peers ↦ with_first rpc.messages λ _ c. (finished, c)
  | i_give messages ↦ on_i_give messages
  | sync update_count topic peers ↦ λ c. (finished, on_sync update_count topic peers now c)
]

-- The messages that are given for the ids asked for: each id is compared with the message that stands
-- at its place in the map.
unfoldable pub answers : List Text → Dict Text → List Text
answers [] topic_data = []
answers (id ∷ ids) [] = []
answers (id ∷ ids) ((msg_id, msg) ∷ topic_data) =
    let rest : List Text = answers ids topic_data in if id == msg_id then msg ∷ rest else rest

unfoldable pub on_i_want : Libp2p → Text → List Text → Text → Client → Client
unfolding answers
on_i_want net topic message_ids asker c = elim (Dict.lookup topic c.msg_cache.topic_data) [
  | some topic_data ↦
      if is_empty (answers message_ids topic_data) then c else (elim (net.peer_of_bytes asker) [
        | some recipient ↦
            emit (requested_of recipient (rpc_of c (i_give (answers message_ids topic_data)))) c
        | none ↦ c
      ])
  | none ↦ c
]

-- A response: only an `IWant` is acted on.
unfoldable pub on_response : Libp2p → Rpc → Handler
unfolding on_i_want
on_response net rpc = with_first rpc.control_msgs λ action. elim action [
  | i_want topic message_ids ↦
      with_first rpc.messages λ asker c. (finished, on_i_want net topic message_ids asker c)
  | i_have topic message_ids ↦ λ c. (finished, c)
  | graft topic peer ↦ λ c. (finished, c)
  | prune topic peers ↦ λ c. (finished, c)
  | i_give messages ↦ λ c. (finished, c)
  | sync update_count topic peers ↦ λ c. (finished, c)
]
