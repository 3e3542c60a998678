-- ===== src/Network/Channel/Degrees.antt =====
-- How many peers a subscription starts from.
use samaritan_db.Prelude.{
  length-drop, ℕ, zero, suc, refl, inl, inr, true, Option, none, some, List, arith, ltb, leb,
  Bool-cases, is_some, length, take, drop, length-append, [], ◌+◌, ◌≤◌, ◌<◌, ◌≡◌, ◌∷◌, ◌++◌,
  if◌then◌else◌,
}
use samaritan_db.Text.{Text, eq_refl, ◌==◌}
use samaritan_db.Dict.{Dict}
use samaritan_db.Dict
use samaritan_db.Contract.State.{new}
use samaritan_db.Network.State.{Libp2p, PeersManager, GossipPeer, deserialize}
use samaritan_db.Network.Client.{Client, peers_of, emit, Outgoing, emit_all}
use samaritan_db.Network.Channel.{
  fill_peers, gather_peers, on_subscription, Surroundings, contains_peer, get_fanout_peers,
  join_peers, publish_once,
}

length-append-peer : (xs : List GossipPeer) (p : GossipPeer) → length (xs ++ p ∷ []) ≡ length xs + 1
length-append-peer xs p = length-append xs (p ∷ [])

join_peers-le :
    (o : Option GossipPeer) (peers : List GossipPeer)
    → length (join_peers o peers) ≤ length peers + 1
unfolding join_peers
join_peers-le none peers = omega arith
join_peers-le (some p) peers = elim (Bool-cases (contains_peer peers p)) [
  | inl known ↦ rw known (omega arith)
  | inr new ↦ rw new (omega (arith, length-append-peer peers p))
]

fill_peers-le :
    (net : Libp2p) (node_pid : Text) (enough : ℕ) (found : List (Text × Text))
    (peers : List GossipPeer)
    → length peers < enough
    → length (fill_peers net node_pid enough found peers).0 ≤ enough
unfolding fill_peers
fill_peers-le net node_pid enough [] peers h = omega arith
fill_peers-le net node_pid enough ((id, addr) ∷ rest) peers h = elim (Bool-cases (id == node_pid)) [
  | inl own ↦ rw own (fill_peers-le net node_pid enough rest peers h)
  | inr other ↦ elim (Bool-cases (leb enough (length now_peers))) [
    | inl full ↦ rw (other, full) (omega (arith, join_peers-le found peers))
    | inr room ↦ rw (other, room) (fill_peers-le net node_pid enough rest now_peers (ground arith))
  ]
]
  where
    found : Option GossipPeer
    found = deserialize net (record { serialized_id = id; serialized_addr = addr })

    now_peers : List GossipPeer
    now_peers = join_peers found peers

length-take-le : (n : ℕ) (xs : List GossipPeer) → length (take n xs) ≤ n
length-take-le zero xs = omega arith
length-take-le (suc n) [] = omega arith
length-take-le (suc n) (x ∷ xs) = omega (arith, length-take-le n xs)

gather_peers-le :
    (around : Surroundings) (did : Text) (c : Client)
    → length (gather_peers around did c).0 ≤ c.gossipsub.config.d + c.gossipsub.config.d_lazy
unfolding gather_peers
gather_peers-le around did c = elim (Bool-cases (ltb (length fanout) enough)) [
  | inl few ↦ rw few (
      fill_peers-le around.net c.ipfs.node_id enough (around.subscribers did) fanout (ground arith))
  | inr many ↦ rw many (omega (arith, started))
]
  where
    enough : ℕ
    enough = c.gossipsub.config.d + c.gossipsub.config.d_lazy

    fanout : List GossipPeer
    fanout =
        if is_some (Dict.lookup did c.gossipsub.other_topics)
        then get_fanout_peers around did c.gossipsub.config.d c.gossipsub
        else []

    started : length fanout ≤ c.gossipsub.config.d
    started = elim (Bool-cases (is_some (Dict.lookup did c.gossipsub.other_topics))) [
      | inl there ↦ rw there (length-take-le c.gossipsub.config.d _)
      | inr missing ↦ rw missing (omega arith)
    ]

emit_all-gossipsub : (os : List Outgoing) (c : Client) → (emit_all os c).gossipsub ≡ c.gossipsub
unfolding emit_all
emit_all-gossipsub [] c = refl
emit_all-gossipsub (o ∷ os) c = emit_all-gossipsub os (emit o c)

publish_once-gossipsub :
    (did message : Text) (c : Client) → (publish_once did message c).gossipsub ≡ c.gossipsub
unfolding publish_once
publish_once-gossipsub did message c = elim (Bool-cases (c.publishes c.attempts)) [
  | inl out ↦ rw out refl
  | inr lost ↦ rw lost refl
]

-- The node's record of the application's content id comes first.
abbrev recorded : Text → Text → Client → Client
recorded did cid c = record c { ipfs = record c.ipfs { cids = Dict.insert did cid c.ipfs.cids } }

abbrev with_peers : Text → List GossipPeer → PeersManager → PeersManager
with_peers did fanout g = record g {
  mesh_peers = Dict.insert did (take g.config.d fanout) g.mesh_peers;
  metadata_peers = Dict.insert did (drop g.config.d fanout) g.metadata_peers;
}

on_subscription-gossipsub :
    (around : Surroundings) (did cid : Text) (c : Client)
    → around.subscribes did ≡ true
    → (on_subscription around did cid c).gossipsub
      ≡ with_peers did (gather_peers around did (recorded did cid c)).0 c.gossipsub
unfolding on_subscription
on_subscription-gossipsub around did cid c h =
    rw (h, emit_all-gossipsub, publish_once-gossipsub) refl

with_peers-le :
    (did : Text) (fanout : List GossipPeer) (g : PeersManager)
    → length fanout ≤ g.config.d + g.config.d_lazy
    → (length (peers_of did (with_peers did fanout g).mesh_peers) ≤ g.config.d)
      × (length (peers_of did (with_peers did fanout g).metadata_peers) ≤ g.config.d_lazy)
with_peers-le did fanout g h = (
  rw (Dict.lookup-insert did did, eq_refl did) (length-take-le g.config.d fanout),
  rw (Dict.lookup-insert did did, eq_refl did) (omega (arith, length-drop g.config.d fanout)),
)

-- A subscription that the network takes leaves the application with at most `d` full-message peers and
-- at most `d_lazy` metadata peers, whatever the contract lists and the node has met.
pub on_subscription-degrees :
    (around : Surroundings) (did cid : Text) (c : Client)
    → around.subscribes did ≡ true
    → let g : PeersManager = (on_subscription around did cid c).gossipsub in
      (length (peers_of did g.mesh_peers) ≤ c.gossipsub.config.d)
      × (length (peers_of did g.metadata_peers) ≤ c.gossipsub.config.d_lazy)
on_subscription-degrees around did cid c h = rw (on_subscription-gossipsub around did cid c h) (
    with_peers-le did (gather_peers around did (recorded did cid c)).0 c.gossipsub
      (gather_peers-le around did (recorded did cid c)))
