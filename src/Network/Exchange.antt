-- ===== src/Network/Exchange.antt =====
-- The messages that the network's own tasks send through the channel in `NetworkClient::run` of
-- database/src/network.rs, and the handling of pings.
use samaritan_db.Prelude.{
  flat_map, ℕ, Bool, true, false, Option, none, some, List, map, ltb, ◌+◌, ◌-◌, ◌%◌, ◌^◌, ◌&&◌,
  if◌then◌else◌,
}
use samaritan_db.Text.{Text}
use samaritan_db.Dict.{Dict}
use samaritan_db.Dict
use samaritan_db.Network.State.{
  serialize, graft, prune, sync, Rpc, GossipPeer, SerializedGossipPeer,
}
use samaritan_db.Network.Client.{requested_of, Client, emit_all, peers_of, rpc_of, Outgoing}
use samaritan_db.Network.Sync.{sync_sent}

-- The requests about one topic, one for each peer.
abbrev pub requests_to : List GossipPeer → Rpc → List Outgoing
requests_to peers rpc = map (λ p. requested_of p.peer_id rpc) peers

-- `GossipGraftMsg`, for this node's address, if it has one.
unfoldable pub on_graft_msg : Option Text → Dict (List GossipPeer) → Client → Client
on_graft_msg none peers c = c
on_graft_msg (some multi_addr) peers c =
    let graft_peer : SerializedGossipPeer =
      serialize (record { peer_id = c.local_peer_id; multi_addr = multi_addr }) in
    emit_all (flat_map (λ e. requests_to e.1 (rpc_of c (graft e.0 graft_peer))) peers) c

-- `GossipPruneMsg`, with the fan-out peers in exchange.
unfoldable pub on_prune_msg : Dict (List GossipPeer) → Client → Client
on_prune_msg peers c =
    let pe_peers : Text → List SerializedGossipPeer =
      λ topic. map serialize (peers_of topic c.gossipsub.other_topics) in
    emit_all (flat_map (λ e. requests_to e.1 (rpc_of c (prune e.0 (pe_peers e.0)))) peers) c

-- `GossipSyncMsg`
unfoldable pub on_sync_msg : ℕ → Text → List GossipPeer → ℕ → Client → Client
on_sync_msg update_count did peers now c =
    let sent : Client =
      emit_all (requests_to peers (rpc_of c (sync update_count did (map serialize peers)))) c in
    record sent { ipfs = sync_sent did now sent.ipfs }

-- `PingManager`: the failures of a peer's pings, a `u8`, and the instant that they are counted from.
abbrev pub PingManager : Type 0
PingManager = Dict (ℕ × ℕ)

abbrev pub ping_error_threshold : ℕ
ping_error_threshold = 20

abbrev pub ping_recovery_window : ℕ
ping_recovery_window = 600

unfoldable pub ping_answered : Text → ℕ → PingManager → PingManager
ping_answered peer now m = elim (Dict.lookup peer m) [
  | some entry ↦ Dict.insert peer (entry.0, now) m
  | none ↦ Dict.insert peer (0, now) m
]

-- Whether the peer is disconnected, and the manager afterwards.
unfoldable pub ping_failed : Text → ℕ → PingManager → Bool × PingManager
ping_failed peer now m = elim (Dict.lookup peer m) [
  | some entry ↦
      let err_count : ℕ = (entry.0 + 1) % 2 ^ 8 in
      if ltb ping_error_threshold err_count && ltb ping_recovery_window (now - entry.1)
      then (true, Dict.remove peer (Dict.insert peer (err_count, entry.1) m))
      else (false, Dict.insert peer (err_count, entry.1) m)
  | none ↦ (false, Dict.insert peer (1, now) m)
]
