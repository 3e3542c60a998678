-- ===== src/Network/Client.antt =====
-- `NetworkClient` of database/src/network.rs: what its handlers read and write, and the sending of
-- messages by `publish_msg` and `gossip_msg`.
pub mod Retries
use samaritan_db.Prelude.{
  ℕ, zero, suc, Bool, Option, none, some, List, map, num_eq, unwrap_or, [], ◌+◌, ◌∷◌, if◌then◌else◌,
}
use samaritan_db.Text.{Text}
use samaritan_db.Dict.{Dict}
use samaritan_db.Dict
use samaritan_db.Network.State.{
  Rpc, GossipPeer, PeersManager, i_have, i_give, ControlAction, IpfsManager,
}
use samaritan_db.Network.Caches.{get_gossip_ids, SeenMsgs, MessageCache}
use samaritan_db.Database.World.{World}

-- What a handler asks of the network layer and of the contract.
pub data Outgoing : Type 0 where
  published : Text → Text → Outgoing
  requested_of : Text → Rpc → Outgoing
  responded : Rpc → Outgoing
  add_address : Text → Text → Outgoing
  add_explicit_peer : Text → Outgoing
  remove_explicit_peer : Text → Outgoing
  modify_app_access : Text → Text → Bool → Outgoing
  subscribe_node : Text → Text → Outgoing
  unsubscribe_node : Text → Text → Outgoing
  dial : Text → Text → Outgoing
  remove_boot_node : Text → Outgoing

pub record Client : Type 0 where
  pub local_peer_id : Text
  pub world : World
  pub seen_msgs : SeenMsgs
  pub msg_cache : MessageCache
  pub gossipsub : PeersManager
  pub ipfs : IpfsManager
  -- What has been asked so far, the last first.
  pub outgoing : List Outgoing
  -- Whether the publications succeed, one by one, and how many have been tried.
  pub publishes : ℕ → Bool
  pub attempts : ℕ

abbrev pub emit : Outgoing → Client → Client
emit o c = record c { outgoing = o ∷ c.outgoing }

unfoldable pub emit_all : List Outgoing → Client → Client
emit_all [] c = c
emit_all (o ∷ os) c = emit_all os (emit o c)

abbrev pub gossip_retry_count : ℕ
gossip_retry_count = 2

-- The loop of both functions, on fuel; `none` if it runs out, which two turns prevent.
unfoldable pub publish_loop : ℕ → ℕ → Text → Text → Client → Option Client
publish_loop zero retry_count did message c = none
publish_loop (suc f) retry_count did message c =
    let c' : Client = record c { attempts = c.attempts + 1 } in
    let again = publish_loop f (retry_count + 1) did message c' in
    if c.publishes c.attempts
    then some (emit (published did message) c')
    else (if num_eq (retry_count + 1) gossip_retry_count then some c' else again)

abbrev pub publish : Text → Text → Client → Client
publish did message c = unwrap_or (publish_loop gossip_retry_count 0 did message c) c

abbrev pub rpc_of : Client → ControlAction → Rpc
rpc_of c action = record { messages = c.local_peer_id ∷ []; control_msgs = action ∷ [] }

abbrev pub peers_of : Text → Dict (List GossipPeer) → List GossipPeer
peers_of did peers = unwrap_or (Dict.lookup did peers) []

-- One request to each peer.
abbrev pub request_all : Rpc → List GossipPeer → Client → Client
request_all rpc peers = emit_all (map (λ p. requested_of p.peer_id rpc) peers)

-- A message of this node: it is published, and given to the metadata peers.
unfoldable pub publish_msg : Text → Text → Client → Client
unfolding publish_loop emit_all
publish_msg message did c =
    request_all (rpc_of c (i_give (message ∷ []))) (peers_of did c.gossipsub.metadata_peers)
      (publish did message c)

-- A message of another: it is published, and offered with the latest others to the metadata peers.
unfoldable pub gossip_msg : Text → Text → Text → Client → Client
unfolding publish_loop emit_all
gossip_msg message did message_id c =
    let message_ids : List Text =
      message_id ∷ get_gossip_ids did c.gossipsub.config.mcache_gossip c.msg_cache in
    request_all (rpc_of c (i_have did message_ids)) (peers_of did c.gossipsub.metadata_peers)
      (publish did message c)
