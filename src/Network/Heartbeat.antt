-- ===== src/Network/Heartbeat.antt =====
-- `handle_gossip_heartbeat` of database/src/network.rs, with the guards of the lock that its task
-- holds. `checks` says whether the build checks overflow: if it does, a `usize` subtraction below 0
-- panics, else it wraps.
pub mod Loops
pub mod Blocked
use samaritan_db.Prelude.{
  reverse, ℕ, zero, suc, Bool, Option, none, some, List, ltb, leb, num_eq, length, is_empty, [],
  ◌+◌, ◌-◌, ◌^◌, ◌∷◌, ◌++◌, if◌then◌else◌,
}
use samaritan_db.Text.{Text}
use samaritan_db.Dict.{Dict}
use samaritan_db.Dict
use samaritan_db.Network.State.{GossipPeer, PeersManager}
use samaritan_db.Network.Client.{peers_of}

-- Subtraction on `usize`.
abbrev pub usize_sub : Bool → ℕ → ℕ → Option ℕ
usize_sub checks a b =
    if leb b a then some (a - b) else (if checks then none else some (a + 2 ^ 64 - b))

abbrev pub push : GossipPeer → Option (List GossipPeer) → Option (List GossipPeer)
push peer none = none
push peer (some peers) = some (peer ∷ peers)

-- The loop that moves metadata peers up: `diff` is lowered before it is tested.
unfoldable pub graft_peers : Bool → ℕ → List GossipPeer → Option (List GossipPeer)
graft_peers checks diff [] = some []
graft_peers checks diff (peer ∷ metapeers) = elim (usize_sub checks diff 1) [
  | some left ↦
      if num_eq left 0 then some (peer ∷ []) else push peer (graft_peers checks left metapeers)
  | none ↦ none
]

-- The loop that moves full-message peers down, from the last one: what stays, reversed, and what goes.
unfoldable pub prune_peers : ℕ → List GossipPeer → List GossipPeer × List GossipPeer
prune_peers zero last_first = (last_first, [])
prune_peers (suc diff) [] = prune_peers diff []
prune_peers (suc diff) (peer ∷ last_first) =
    let (stays, goes) = prune_peers diff last_first in (stays, peer ∷ goes)

-- What a topic comes to: nothing is to do, a subtraction panics, or the first list is to be stored as
-- its full-message peers, the second being those that move up or down.
pub data Upkeep : Type 0 where
  settled overflowed : Upkeep
  grafts prunes : List GossipPeer → List GossipPeer → Upkeep

unfoldable pub maintain_topic : Bool → PeersManager → Text → List GossipPeer → Upkeep
unfolding graft_peers prune_peers
maintain_topic checks g topic topic_peers =
    let metapeers : List GossipPeer = peers_of topic g.metadata_peers in
    if ltb (length topic_peers) g.config.d
    then (elim (usize_sub checks g.config.d_low (length topic_peers)) [
      | some diff ↦
          if is_empty metapeers then settled else (elim (graft_peers checks diff metapeers) [
            | some temp_peers ↦ grafts (topic_peers ++ temp_peers) temp_peers
            | none ↦ overflowed
          ])
      | none ↦ overflowed
    ])
    else (if ltb g.config.d_high (length topic_peers)
        then (elim (usize_sub checks g.config.d_high (length topic_peers)) [
          | some diff ↦
              let (stays, goes) = prune_peers diff (reverse topic_peers) in
              prunes (reverse stays) goes
          | none ↦ overflowed
        ])
        else settled)

-- Whether a task that holds this many guards of the lock is ever let in to write: other tasks give
-- their guards back, it does not while it waits.
abbrev pub may_write : ℕ → Bool
may_write guards = num_eq guards 0

-- How a heartbeat ends: it has gone through all topics, and leaves these peers; it waits at a topic
-- for the lock; or it panics.
pub data Beat : Type 0 where
  beaten : PeersManager → Beat
  waits_forever : Text → Beat
  overflow_panic : Beat

abbrev pub store_mesh : Text → List GossipPeer → PeersManager → PeersManager
store_mesh topic topic_peers g = record g {
  mesh_peers = Dict.insert topic topic_peers g.mesh_peers;
}

-- The loop over the topics, in a task that holds `guards` guards. Each round takes one more for reading
-- and gives it back at its end. The peers that have moved are put into messages whose sending is never
-- awaited, so that they have no effect.
unfoldable pub heartbeat_topics : Bool → ℕ → PeersManager → Dict (List GossipPeer) → Beat
unfolding maintain_topic
heartbeat_topics checks guards g [] = beaten g
heartbeat_topics checks guards g ((topic, topic_peers) ∷ topics) =
    let held : ℕ = guards + 1 in
    elim (maintain_topic checks g topic topic_peers) [
      | settled ↦ heartbeat_topics checks guards g topics
      | overflowed ↦ overflow_panic
      | grafts mesh moved ↦
          if may_write held
          then heartbeat_topics checks guards (store_mesh topic mesh g) topics
          else waits_forever topic
      | prunes mesh moved ↦
          if may_write held
          then heartbeat_topics checks guards (store_mesh topic mesh g) topics
          else waits_forever topic
    ]

-- The guard for copying the topics has been given back when the loop starts.
unfoldable pub handle_gossip_heartbeat : Bool → PeersManager → Beat
unfolding heartbeat_topics
handle_gossip_heartbeat checks g = heartbeat_topics checks 0 g g.mesh_peers
