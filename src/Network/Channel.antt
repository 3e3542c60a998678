-- ===== src/Network/Channel.antt =====
-- The handlers of `ChannelMsg` in `NetworkClient::run` of database/src/network.rs: what the database's
-- own commands ask of the network.
pub mod Degrees
use samaritan_db.Prelude.{
  ℕ, Bool, false, not, Option, none, some, List, map, ltb, leb, is_some, length, take, drop,
  is_empty, [], ◌+◌, ◌&&◌, ◌||◌, ◌∷◌, ◌++◌, if◌then◌else◌,
}
use samaritan_db.Text.{Text, ◌==◌}
use samaritan_db.Dict.{Dict}
use samaritan_db.Dict
use samaritan_db.Network.State.{Libp2p, deserialize, PeersManager, GossipPeer}
use samaritan_db.Network.Client.{
  emit_all, publish_msg, dial, peers_of, Outgoing, remove_boot_node, emit, Client,
  modify_app_access, published, add_explicit_peer,
}
use samaritan_db.Network.Message.{
  show_bool, membership_message, subscribe_msg, unsubscribe_msg, config_message, data_message,
}
use samaritan_db.Network.Receive.{set_modified}
use samaritan_db.Database.World.{
  set_network_sync_flag, unsubscribe_node_from_application, shutdown, gossip_truncate_event,
  ChannelMsg, subscribe_node_to_application, db_info, gossip_delete_event, gossip_write_data,
  change_pinning_server, gossip_access_change, current_unix_epoch,
}
use samaritan_db.Database.State.{remove_application}
use samaritan_db.Database.Gossip.{WriteDataType}

-- What is outside: this node's address, the contract's subscribers of an application in the order
-- that they are read in, the shuffle, and whether the network enters and leaves a topic.
pub record Surroundings : Type 0 where
  pub net : Libp2p
  pub multi_addr : Text
  pub subscribers : Text → List (Text × Text)
  pub shuffle : List GossipPeer → List GossipPeer
  pub subscribes : Text → Bool
  pub unsubscribes : Text → Bool

-- One attempt, whose failure is passed over.
unfoldable pub publish_once : Text → Text → Client → Client
publish_once did message c =
    let c' : Client = record c { attempts = c.attempts + 1 } in
    if c.publishes c.attempts then emit (published did message) c' else c'

abbrev pub is_peer : GossipPeer → GossipPeer → Bool
is_peer p q = p.peer_id == q.peer_id && p.multi_addr == q.multi_addr

unfoldable pub contains_peer : List GossipPeer → GossipPeer → Bool
contains_peer [] p = false
contains_peer (q ∷ qs) p = is_peer q p || contains_peer qs p

-- `get_fanout_peers`
abbrev pub get_fanout_peers : Surroundings → Text → ℕ → PeersManager → List GossipPeer
get_fanout_peers around did outbound_degree g =
    take outbound_degree (around.shuffle (peers_of did g.other_topics))

-- A peer that could be read joins, if it is new.
unfoldable pub join_peers : Option GossipPeer → List GossipPeer → List GossipPeer
unfolding contains_peer
join_peers none peers = peers
join_peers (some peer) peers = if contains_peer peers peer then peers else peers ++ peer ∷ []

-- The contract's peers, until there are enough: the peers found, and the routes to them.
unfoldable pub fill_peers :
    Libp2p → Text → ℕ → List (Text × Text) → List GossipPeer → List GossipPeer × List Outgoing
unfolding join_peers
fill_peers net node_pid enough [] peers = (peers, [])
fill_peers net node_pid enough ((id, addr) ∷ rest) peers =
    let found : Option GossipPeer =
      deserialize net (record { serialized_id = id; serialized_addr = addr }) in
    let now_peers : List GossipPeer = join_peers found peers in
    let routes : List Outgoing = (elim found [
      | some peer ↦ Outgoing.add_address peer.peer_id peer.multi_addr ∷ []
      | none ↦ []
    ]) in
    let skipped = fill_peers net node_pid enough rest peers in
    let more = fill_peers net node_pid enough rest now_peers in
    if not (id == node_pid)
    then (if leb enough (length now_peers) then (now_peers, routes) else (more.0, routes ++ more.1))
    else skipped

-- The peers that a new subscription starts from, with the routes to them.
unfoldable pub gather_peers : Surroundings → Text → Client → List GossipPeer × List Outgoing
unfolding fill_peers
gather_peers around did c =
    let g : PeersManager = c.gossipsub in
    let fanout : List GossipPeer =
      (if is_some (Dict.lookup did g.other_topics)
        then get_fanout_peers around did g.config.d g
        else []) in
    let enough : ℕ = g.config.d + g.config.d_lazy in
    if ltb (length fanout) enough
    then fill_peers around.net c.ipfs.node_id enough (around.subscribers did) fanout
    else (fanout, [])

-- `SubscribeNodeToApplication`, without the tasks that it starts.
unfoldable pub on_subscription : Surroundings → Text → Text → Client → Client
unfolding gather_peers
on_subscription around did hashtable_cid c0 =
    let c : Client = record c0 {
      ipfs = record c0.ipfs { cids = Dict.insert did hashtable_cid c0.ipfs.cids };
    } in
    if around.subscribes did
    then (let (fanout, routes) = gather_peers around did c in
        let full : List GossipPeer = take c.gossipsub.config.d fanout in
        let told : Client =
          (if is_empty around.multi_addr
            then c
            else emit (Outgoing.subscribe_node did around.multi_addr) c) in
        let joined : Client =
          emit_all (map (λ p. add_explicit_peer p.peer_id) full) (emit_all routes told) in
        let meshed : Client = record joined {
          gossipsub = record c.gossipsub {
            mesh_peers = Dict.insert did full c.gossipsub.mesh_peers;
            metadata_peers =
                Dict.insert did (drop c.gossipsub.config.d fanout) c.gossipsub.metadata_peers;
          };
        } in
        emit_all (map (λ p. dial p.peer_id p.multi_addr) full) (
          publish_once did (membership_message subscribe_msg did around.multi_addr c.local_peer_id)
            meshed))
    else record c { world = record c.world { state = remove_application did c.world.state } }

-- `UnsubscribeNodeFromApplication`
unfoldable pub on_unsubscription : Surroundings → Text → Client → Client
on_unsubscription around did c0 =
    let g : PeersManager = c0.gossipsub in
    let combined : List GossipPeer =
      peers_of did g.other_topics ++ (peers_of did g.metadata_peers ++ peers_of did g.mesh_peers) in
    let c : Client = emit (Outgoing.unsubscribe_node did around.multi_addr) (record c0 {
      ipfs = record c0.ipfs { cids = Dict.remove did c0.ipfs.cids };
      gossipsub = record g {
        other_topics =
            if is_empty combined then g.other_topics else Dict.insert did combined g.other_topics;
      };
    }) in
    let sent : Client =
      publish_once did (membership_message unsubscribe_msg did around.multi_addr c.local_peer_id)
        c in
    if around.unsubscribes did
    then record sent {
      gossipsub = record sent.gossipsub {
        mesh_peers = Dict.remove did sent.gossipsub.mesh_peers;
        metadata_peers = Dict.remove did sent.gossipsub.metadata_peers;
      };
    }
    else sent

-- `Shutdown`: the node leaves every application, and the list of boot nodes.
unfoldable pub leave_all : Surroundings → List Text → Client → Client
leave_all around [] c = c
leave_all around (did ∷ dids) c = leave_all around dids (
    publish_once did (membership_message unsubscribe_msg did around.multi_addr c.local_peer_id)
      (emit (Outgoing.unsubscribe_node did around.multi_addr) c))

-- `ChangePinningServer`
unfoldable pub on_pinning_server : Text → Text → Client → Client
on_pinning_server did url c =
    if is_some (Dict.lookup did c.ipfs.cids)
    then (let (now, w) = current_unix_epoch c.world in
        publish_msg (config_message did url now c.local_peer_id) did (record c {
          world = w;
          ipfs = record c.ipfs {
            pinning_servers = Dict.insert did (url, now) c.ipfs.pinning_servers;
          };
        }))
    else c

-- A message of this node about data, as `data_message` with the node's address and id.
unfoldable pub gossip_data :
    Surroundings → Text → Text → Text → Text → ℕ → WriteDataType → Client → Client
gossip_data around did key value owner_did time kind c =
    publish_msg (data_message did key value owner_did time around.multi_addr c.local_peer_id kind)
      did c

unfoldable pub handle_channel : Surroundings → ChannelMsg → Client → Client
unfolding on_subscription on_unsubscription leave_all on_pinning_server gossip_data
handle_channel around (set_network_sync_flag did) c = set_modified did c
handle_channel around (gossip_write_data did key value owner_did time) c =
    gossip_data around did key value owner_did time WriteDataType.write c
handle_channel around (gossip_delete_event did key owner_did time) c =
    gossip_data around did key [] owner_did time WriteDataType.delete c
handle_channel around (gossip_truncate_event did owner_did time) c =
    gossip_data around did [] [] owner_did time WriteDataType.truncate c
handle_channel around (gossip_access_change perm did owner_did time) c =
    gossip_data around did (show_bool perm) [] owner_did time WriteDataType.access
      (emit (modify_app_access did owner_did perm) c)
handle_channel around (subscribe_node_to_application did cid) c = on_subscription around did cid c
handle_channel around (unsubscribe_node_from_application did) c = on_unsubscription around did c
handle_channel around (change_pinning_server did url) c = on_pinning_server did url c
handle_channel around db_info c = c
handle_channel around shutdown c =
    emit (remove_boot_node around.multi_addr) (leave_all around (Dict.keys c.ipfs.cids) c)
