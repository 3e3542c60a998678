-- ===== src/Tests/Peers.antt =====
-- Caches and peers at concrete values.
use samaritan_db.Network.Heartbeat.{graft_peers, waits_forever, handle_gossip_heartbeat}
use samaritan_db.Prelude.{
  refl, true, false, some, is_some, length, All, [], ◌+◌, ◌≤◌, ◌≡◌, ◌∷◌, if◌then◌else◌,
}
use samaritan_db.Text.{codes, ◌==◌}
use samaritan_db.Dict.{Dict}
use samaritan_db.Dict
use samaritan_db.Network.Requests.Wanted.{on_response-misses}
use samaritan_db.Network.Client.Retries.{publish_loop_ends, gives_up}
use samaritan_db.Network.Caches.Messages.{Entry, put_all-Bounded, ids, put_all}
use samaritan_db.Network.Caches.Window.{suffix}
use samaritan_db.Network.Channel.Degrees.{on_subscription-degrees}
use samaritan_db.Network.State.{GossipPeer, PeersManager, i_want, setup_config, new_with_config}
use samaritan_db.Network.Client.{publish_loop, peers_of, Client, published}
use samaritan_db.Network.Channel.{on_subscription}
use samaritan_db.Network.Requests.{on_response}
use samaritan_db.Network.Caches.{
  get_message, MessageCache, new_cache, shift, mcache_len, get_gossip_ids,
}
use samaritan_db.Tests.Data.{sam, fresh, old, app}
use samaritan_db.Tests.Replication.{client_of, near}

abbrev peer_p : GossipPeer
peer_p = record { peer_id = codes "P"; multi_addr = codes "/p" }

abbrev entry : Entry
entry = record { topic = app; message_id = codes "m1"; message_data = fresh }

put_all-Bounded_example :
    let c : MessageCache = put_all (entry ∷ []) new_cache in
    (c.current_window ≡ suffix mcache_len (ids (entry ∷ [])))
    × (shift c ≡ c)
    × (length (get_gossip_ids app 3 c) ≤ 3)
    × All (λ id. is_some (get_message app id c) ≡ true) (get_gossip_ids app 3 c)
put_all-Bounded_example = put_all-Bounded (entry ∷ []) app 3

publish_loop_ends_example :
    (c' : Client) × (publish_loop 2 0 app fresh (client_of sam) ≡ some c')
    × (c' ≡ record (client_of sam) {
      outgoing =
          if gives_up (client_of sam)
          then (client_of sam).outgoing
          else published app fresh ∷ (client_of sam).outgoing;
      attempts =
          if (client_of sam).publishes (client_of sam).attempts
          then (client_of sam).attempts + 1
          else (client_of sam).attempts + 1 + 1;
    })
publish_loop_ends_example = publish_loop_ends 0 app fresh (client_of sam)

on_subscription-degrees_example :
    let g : PeersManager = (on_subscription near app fresh (client_of sam)).gossipsub in
    (length (peers_of app g.mesh_peers) ≤ 6) × (length (peers_of app g.metadata_peers) ≤ 6)
on_subscription-degrees_example = on_subscription-degrees near app fresh (client_of sam) refl

abbrev managed : PeersManager
managed = record (new_with_config setup_config) {
  mesh_peers = (app, peer_p ∷ []) ∷ [];
  metadata_peers = (app, peer_p ∷ []) ∷ [];
}

managed_waits : handle_gossip_heartbeat false managed ≡ waits_forever app
unfolding handle_gossip_heartbeat graft_peers Dict.lookup ◌==◌
managed_waits = refl

abbrev holder : Client
holder = record (client_of sam) {
  msg_cache = record {
    topic_data = (app, (codes "m1", old) ∷ (codes "m2", fresh) ∷ []) ∷ [];
    current_window = codes "m1" ∷ codes "m2" ∷ [];
  };
}

on_response-misses_example :
    (on_response near.net
      (record { messages = codes "B" ∷ []; control_msgs = i_want app (codes "m2" ∷ []) ∷ [] })
      holder).1
    ≡ holder
unfolding Dict.lookup ◌==◌
on_response-misses_example =
    on_response-misses near.net app (codes "B") (codes "m2") (codes "m1") old
      ((codes "m2", fresh) ∷ []) [] [] holder refl refl
