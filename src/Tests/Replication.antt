-- ===== src/Tests/Replication.antt =====
-- Messages between two nodes at concrete values.
use samaritan_db.Prelude.{
  refl, Bool, true, not, some, List, arith, ltb, num_eq, All, [], ◌≡◌, ◌&&◌, ◌∷◌, ◌++◌,
  if◌then◌else◌,
}
use samaritan_db.Text.{contains, Text, codes, ◌==◌}
use samaritan_db.Dict.{Dict}
use samaritan_db.Database.DataMap
use samaritan_db.Network.Requests.Given.{on_given-unchecked}
use samaritan_db.Network.Receive.Forged.{forged_message, receive_message-forged}
use samaritan_db.Network.Message.Fields.{IsField}
use samaritan_db.Network.Requests.{on_given}
use samaritan_db.Network.Receive.{receive_message}
use samaritan_db.Database.Gossip.Units.{written_at, KeepsRest}
use samaritan_db.Database.World.{gossip_write_data}
use samaritan_db.Database.View.{same_place, unit_of}
use samaritan_db.Database.Gossip.{handle_gossiped_data}
use samaritan_db.Network.Receive.Writes.{IsReplicable, handle_channel-receive_message}
use samaritan_db.Dict
use samaritan_db.Text.Utf8.{from_utf8}
use samaritan_db.Text.Decimal.{show_uint}
use samaritan_db.Text.Split.{join}
use samaritan_db.Network.Receive.Replication.{IsNewMessage}
use samaritan_db.Network.State.{new_with_config, Libp2p, setup_config, IpfsManager}
use samaritan_db.Network.Client.{Client, published, Outgoing}
use samaritan_db.Network.Channel.{Surroundings, handle_channel}
use samaritan_db.Network.Message.{
  data_message, data_fields, msg_code, write_code, field_separator, data_msg,
}
use samaritan_db.Network.Caches.{new_cache}
use samaritan_db.Tests.Data.{sam, node, fresh, name, app, sam_entry, old, eve}

-- A test for the fields of a message.
abbrev is_field : Text → Bool
is_field [] = true
is_field (b ∷ s) = not (num_eq b b'$') && is_field s

is_field-IsField : (s : Text) → is_field s ≡ true → IsField s
is_field-IsField [] h = tt
is_field-IsField (b ∷ s) h = (ground arith, is_field-IsField s (ground arith))

abbrev are_fields : List Text → Bool
are_fields [] = true
are_fields (s ∷ ss) = is_field s && are_fields ss

are_fields-IsField : (ss : List Text) → are_fields ss ≡ true → All IsField ss
are_fields-IsField [] h = tt
are_fields-IsField (s ∷ ss) h =
    (is_field-IsField s (ground arith), are_fields-IsField ss (ground arith))

-- A network layer that reads every address and id as it stands.
abbrev plain_net : Libp2p
plain_net = record {
  peer_of_base58 = λ s. some s;
  peer_of_bytes = λ s. some s;
  parse_multiaddr = λ s. some s;
}

abbrev pub near : Surroundings
near = record {
  net = plain_net;
  multi_addr = codes "/ip4";
  subscribers = λ did. (codes "P", codes "/p") ∷ (codes "Q", codes "/q") ∷ [];
  shuffle = λ ps. ps;
  subscribes = λ did. true;
  unsubscribes = λ did. true;
}

abbrev pub ipfs_manager : IpfsManager
ipfs_manager = record {
  node_id = codes "A";
  cids = (app, codes "Qm") ∷ [];
  is_node_sync_turn = [];
  data_update_count = [];
  sync_peers = [];
  last_sync_time = [];
  modified = [];
  pinning_servers = [];
}

abbrev pub client_of : Text → Client
client_of id = record {
  local_peer_id = id;
  world = node;
  seen_msgs = [];
  msg_cache = new_cache;
  gossipsub = new_with_config setup_config;
  ipfs = ipfs_manager;
  outgoing = [];
  publishes = λ n. true;
  attempts = 0;
}

abbrev alice : Client
alice = client_of (codes "A")

abbrev bob : Client
bob = client_of (codes "B")

bob_is_new : IsNewMessage (codes "A") (codes "m1") app bob
unfolding Dict.lookup ◌==◌ contains
bob_is_new = record { running = refl; foreign = refl; unseen = refl }

replicable : IsReplicable near (codes "A") (codes "m1") app name fresh sam 60 alice bob
unfolding data_message data_fields from_utf8 show_uint join write_code msg_code
replicable = record {
  publishes = refl;
  fields = are_fields-IsField (app ∷ name ∷ fresh ∷ sam ∷ codes "/ip4" ∷ codes "A" ∷ []) refl;
  is_text = refl;
  time_fits = omega arith;
  is_new = bob_is_new;
}

handle_channel-receive_message_example :
    (m : Text) × ((later : List Outgoing) × ((handle_channel near
          (gossip_write_data app name fresh sam 60)
          alice).outgoing
        ≡ later ++ published app m ∷ alice.outgoing))
    × ((d o k : Text)
        → unit_of d o k (receive_message near.net (codes "A") (codes "m1") m bob).1.world.state ≡ (
            if same_place app sam name d o k
              && ltb (written_at (unit_of app sam name bob.world.state)) 60
            then some (DataMap.written fresh (bob.world.clock bob.world.readings))
            else unit_of d o k bob.world.state))
    × KeepsRest bob.world (receive_message near.net (codes "A") (codes "m1") m bob).1.world
unfolding Dict.lookup ◌==◌
handle_channel-receive_message_example =
    handle_channel-receive_message near (codes "A") (codes "m1") app name fresh sam 60 alice bob
      sam_entry replicable refl

receive_message-forged_example :
    (receive_message plain_net
      (codes "A")
      (codes "m1")
      (forged_message plain_net
        (codes "A")
        (codes "m1")
        app
        name
        old
        eve
        (codes "60")
        []
        []
        (codes "1")
        sam
        70
        (codes "/ip4")
        (codes "A")
        bob)
      bob).1.world
    ≡ (handle_gossiped_data app name old eve (codes "60") (codes "1") bob.world).1
unfolding data_message data_fields from_utf8 show_uint join write_code msg_code
receive_message-forged_example =
    receive_message-forged plain_net (codes "A") (codes "m1") app name old eve (codes "60") [] []
      (codes "1") sam 70 (codes "/ip4") (codes "A") bob
      (are_fields-IsField (app ∷ name ∷ old ∷ eve ∷ codes "60" ∷ [] ∷ [] ∷ codes "1" ∷ []) refl)
      (are_fields-IsField (sam ∷ codes "/ip4" ∷ codes "A" ∷ []) refl) refl bob_is_new

on_given-unchecked_example :
    let text : Text = join field_separator (
      show_uint (msg_code data_msg)
      ∷ app
      ∷ name
      ∷ fresh
      ∷ sam
      ∷ codes "60"
      ∷ []
      ∷ []
      ∷ codes "3"
      ∷ []) in
    ((on_given text bob).1.world
      ≡ (handle_gossiped_data app name fresh sam (codes "60") (codes "3") bob.world).1)
    × ((on_given text bob).1.seen_msgs ≡ bob.seen_msgs)
unfolding from_utf8 show_uint join msg_code
on_given-unchecked_example =
    on_given-unchecked app name fresh sam (codes "60") [] [] (codes "3") bob
      (are_fields-IsField (app ∷ name ∷ fresh ∷ sam ∷ codes "60" ∷ [] ∷ [] ∷ codes "3" ∷ []) refl)
      refl
