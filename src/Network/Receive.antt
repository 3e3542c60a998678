-- ===== src/Network/Receive.antt =====
-- The handler of a gossiped message in `NetworkClient::run` of database/src/network.rs.
pub mod Replication
pub mod Writes
pub mod Forged
use samaritan_db.Prelude.{
  ℕ, true, not, none, some, List, map, ltb, num_eq, unwrap_or, [], ◌&&◌, ◌∷◌, ◌++◌, if◌then◌else◌,
}
use samaritan_db.Text.{contains, Text, ◌==◌}
use samaritan_db.Dict.{Dict}
use samaritan_db.Dict
use samaritan_db.Text.Number.{parse_uint, u8_limit, u64_limit}
use samaritan_db.Text.Utf8.{from_utf8}
use samaritan_db.Text.Split.{split}
use samaritan_db.Network.State.{GossipPeer, prune, Libp2p, SerializedGossipPeer, serialize}
use samaritan_db.Network.Client.{
  gossip_msg, Client, emit, requested_of, remove_explicit_peer, peers_of, rpc_of, add_explicit_peer,
  Outgoing,
}
use samaritan_db.Network.Message.{
  gossip_msg_type, unsubscribe_msg, get_elem?, unknown_msg, data_msg, config_msg, subscribe_msg,
  field_separator,
}
use samaritan_db.Network.Caches.{shift, put, add_data}
use samaritan_db.Database.World.{current_unix_epoch}
use samaritan_db.Database.State.{is_application_init}
use samaritan_db.Database.Gossip.{finished, panicked, handle_gossiped_data, Ended}

abbrev pub Handler : Type 0
Handler = Client → Ended × Client

-- A use of a field: an index out of range panics.
unfoldable pub with_field : ℕ → List Text → (Text → Handler) → Handler
with_field i msg_data k c = elim (get_elem? i msg_data) [ some x ↦ k x c | none ↦ (panicked, c) ]

-- `self.ipfs.write().await.modified.insert(did, true)`
abbrev pub set_modified : Text → Client → Client
set_modified did c = record c {
  ipfs = record c.ipfs { modified = Dict.insert did true c.ipfs.modified };
}

-- The message's effect on the database.
unfoldable pub apply_data : Text → List Text → Handler
apply_data did msg_data = with_field 2 msg_data λ key. with_field 3 msg_data λ value.
    with_field 4 msg_data λ owner_did. with_field 5 msg_data λ write_time.
      with_field 8 msg_data λ write_type c.
        let (ended, w) =
          handle_gossiped_data did key value owner_did write_time write_type c.world in
        (ended, record c { world = w })

-- The seen ids, the cache, and the message's way on to other peers.
unfoldable pub pass_on : Text → Text → Text → Client → Client
unfolding gossip_msg
pass_on did message_id bytes c =
    let seen : Client = record c {
      seen_msgs = add_data message_id c.seen_msgs;
      msg_cache = put did message_id bytes c.msg_cache;
    } in
    let sent : Client = gossip_msg bytes did message_id seen in
    record sent { msg_cache = shift sent.msg_cache }

abbrev pub add_peer : Text → GossipPeer → Dict (List GossipPeer) → Dict (List GossipPeer)
add_peer did peer peers = Dict.insert did (peers_of did peers ++ peer ∷ []) peers

-- A message for an application that this node does not run: the sender is remembered, and told.
unfoldable pub decline : Libp2p → Text → Text → List Text → Handler
decline net did peer_id msg_data = with_field 6 msg_data λ addr c.
    let c' : Client = (elim (net.parse_multiaddr addr) [
      | some multi_addr ↦
          let peer : GossipPeer = record { peer_id = peer_id; multi_addr = multi_addr } in
          emit (Outgoing.add_address peer_id multi_addr) (record c {
            gossipsub = record c.gossipsub {
              other_topics = add_peer did peer c.gossipsub.other_topics;
            };
          })
      | none ↦ c
    ]) in
    let pe_peers : List SerializedGossipPeer =
      map serialize (peers_of did c'.gossipsub.other_topics) in
    (finished, emit (requested_of peer_id (rpc_of c' (prune did pe_peers))) c')

unfoldable pub on_data : Libp2p → Text → Text → Text → Text → List Text → Handler
unfolding apply_data pass_on decline
on_data net did peer_id message_id bytes msg_data c =
    if is_application_init did c.world.state
    then (if not (c.local_peer_id == peer_id) && not (contains c.seen_msgs message_id)
        then (let (ended, c') = apply_data did msg_data (set_modified did c) in
            (elim ended [
              | finished ↦ (finished, pass_on did message_id bytes c')
              | panicked ↦ (panicked, c')
            ]))
        else (finished, c))
    else decline net did peer_id msg_data c

unfoldable pub on_subscribe : Libp2p → Text → Text → List Text → Handler
on_subscribe net did peer_id msg_data c =
    if is_application_init did c.world.state
    then (if not (c.ipfs.node_id == peer_id)
        then with_field 2 msg_data
            (λ addr c. elim (net.parse_multiaddr addr) [
              | some multi_addr ↦
                  let peer : GossipPeer = record { peer_id = peer_id; multi_addr = multi_addr } in
                  with_field 3 msg_data (λ _ c. (finished, c))
                    (emit (add_explicit_peer peer_id) (record c {
                      gossipsub = record c.gossipsub {
                        mesh_peers = add_peer did peer c.gossipsub.mesh_peers;
                      };
                    }))
              | none ↦ (finished, c)
            ])
            c
        else (finished, c))
    else with_field 2 msg_data
        (λ addr c. elim (net.parse_multiaddr addr) [
          | some multi_addr ↦
              with_field 3 msg_data
                (λ id c. elim (net.peer_of_bytes id) [
                  | some other ↦
                      let peer : GossipPeer = record { peer_id = other; multi_addr = multi_addr } in
                      (
                        finished,
                        emit (Outgoing.add_address other multi_addr) (record c {
                          gossipsub = record c.gossipsub {
                            other_topics = add_peer did peer c.gossipsub.other_topics;
                          };
                        }),
                      )
                  | none ↦ (finished, c)
                ])
                c
          | none ↦ (finished, c)
        ])
        c

unfoldable pub on_unsubscribe : Libp2p → Text → Text → List Text → Handler
on_unsubscribe net did peer_id msg_data c =
    if is_application_init did c.world.state
    then (if not (c.ipfs.node_id == peer_id)
        then with_field 2 msg_data
            (λ addr c. elim (net.parse_multiaddr addr) [
              | some multi_addr ↦
                  let peer : GossipPeer = record { peer_id = peer_id; multi_addr = multi_addr } in
                  with_field 3 msg_data (λ _ c. (finished, c))
                    (emit (remove_explicit_peer peer_id) (record c {
                      gossipsub = record c.gossipsub {
                        mesh_peers = Dict.remove did c.gossipsub.mesh_peers;
                        other_topics = add_peer did peer c.gossipsub.other_topics;
                      };
                    }))
              | none ↦ (finished, c)
            ])
            c
        else (finished, c))
    else (finished, c)

-- The pinning server that a message sets, with this node's time; an older message than the last
-- change is refused.
unfoldable pub set_pinning_server : Text → Text → ℕ → Client → Client
set_pinning_server did url update_time c =
    let (now, w) = current_unix_epoch c.world in
    let c' : Client = record c { world = w } in
    let changed : Client = record c' {
      ipfs = record c.ipfs { pinning_servers = Dict.insert did (url, now) c.ipfs.pinning_servers };
    } in
    elim (Dict.lookup did c.ipfs.pinning_servers) [
      | some cfg ↦ if ltb cfg.1 update_time then changed else c'
      | none ↦ changed
    ]

unfoldable pub apply_config : Text → List Text → (Client → Client) → Handler
unfolding set_pinning_server
apply_config did msg_data next = with_field 8 msg_data λ cfg. with_field 5 msg_data λ update_time c.
    if num_eq (unwrap_or (parse_uint u8_limit cfg) 0) 0
    then with_field 2 msg_data
        (λ url c. (
          finished,
          next (set_pinning_server did url (unwrap_or (parse_uint u64_limit update_time) 0) c),
        ))
        c
    else (finished, c)

unfoldable pub on_config : Text → Text → Text → List Text → Handler
unfolding apply_config gossip_msg
on_config did message_id bytes msg_data = apply_config did msg_data λ c.
    let sent : Client = gossip_msg bytes did message_id c in
    record sent { msg_cache = shift sent.msg_cache }

-- The handler for the pieces of the text.
unfoldable pub dispatch : Libp2p → Text → Text → Text → List Text → Handler
unfolding on_data on_subscribe on_unsubscribe on_config
dispatch net peer_id message_id bytes msg_data = with_field 0 msg_data λ code.
    with_field 1 msg_data λ did c. elim (parse_uint u8_limit code) [
      | some n ↦ elim (gossip_msg_type n) [
        | data_msg ↦ on_data net did peer_id message_id bytes msg_data c
        | subscribe_msg ↦ on_subscribe net did peer_id msg_data c
        | unsubscribe_msg ↦ on_unsubscribe net did peer_id msg_data c
        | config_msg ↦ on_config did message_id bytes msg_data c
        | unknown_msg ↦ (finished, c)
      ]
      | none ↦ (finished, c)
    ]

-- The whole handler, for the message's sender, id and bytes.
unfoldable pub receive_message : Libp2p → Text → Text → Text → Handler
unfolding dispatch
receive_message net peer_id message_id bytes =
    dispatch net peer_id message_id bytes (split field_separator (unwrap_or (from_utf8 bytes) []))
