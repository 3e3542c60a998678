-- ===== src/Network/State.antt =====
-- The data types of database/src/network.rs that its handlers share. A peer's id is its text in
-- base 58, and an address the text it prints as.
use samaritan_db.Prelude.{ℕ, Bool, Option, none, some, List, []}
use samaritan_db.Text.{Text}
use samaritan_db.Dict.{Dict}

pub record GossipPeer : Type 0 where
  pub peer_id : Text
  pub multi_addr : Text

-- `SerializedGossipPeer`
pub record SerializedGossipPeer : Type 0 where
  pub serialized_id : Text
  pub serialized_addr : Text

-- `From<GossipPeer>`
abbrev pub serialize : GossipPeer → SerializedGossipPeer
serialize p = record { serialized_id = p.peer_id; serialized_addr = p.multi_addr }

-- What libp2p reads: an id from its text in base 58 or from its bytes, and an address from its text.
pub record Libp2p : Type 0 where
  pub peer_of_base58 : Text → Option Text
  pub peer_of_bytes : Text → Option Text
  pub parse_multiaddr : Text → Option Text

unfoldable pub deserialize : Libp2p → SerializedGossipPeer → Option GossipPeer
deserialize net p = elim (net.peer_of_base58 p.serialized_id) [
  | some peer_id ↦ elim (net.parse_multiaddr p.serialized_addr) [
    | some multi_addr ↦ some (record { peer_id = peer_id; multi_addr = multi_addr })
    | none ↦ none
  ]
  | none ↦ none
]

-- The degrees of `GossipSubConfig`, with the values that `setup_peer` gives.
pub record GossipSubConfig : Type 0 where
  pub d : ℕ
  pub d_low : ℕ
  pub d_high : ℕ
  pub d_lazy : ℕ
  pub mcache_gossip : ℕ

abbrev pub setup_config : GossipSubConfig
setup_config = record { d = 6; d_low = 4; d_high = 12; d_lazy = 6; mcache_gossip = 3 }

pub record PeersManager : Type 0 where
  pub config : GossipSubConfig
  pub mesh_peers : Dict (List GossipPeer)
  pub metadata_peers : Dict (List GossipPeer)
  pub other_topics : Dict (List GossipPeer)

-- `PeersManager::new_with_config`
abbrev pub new_with_config : GossipSubConfig → PeersManager
new_with_config config = record {
  config = config;
  mesh_peers = [];
  metadata_peers = [];
  other_topics = [];
}

-- `IPFSManager`, with instants in seconds.
pub record IpfsManager : Type 0 where
  pub node_id : Text
  pub cids : Dict Text
  pub is_node_sync_turn : Dict Bool
  pub data_update_count : Dict ℕ
  pub sync_peers : Dict (List SerializedGossipPeer)
  pub last_sync_time : Dict ℕ
  pub modified : Dict Bool
  pub pinning_servers : Dict (Text × ℕ)

pub data ControlAction : Type 0 where
  i_have : Text → List Text → ControlAction
  i_want : Text → List Text → ControlAction
  graft : Text → SerializedGossipPeer → ControlAction
  prune : Text → List SerializedGossipPeer → ControlAction
  i_give : List Text → ControlAction
  sync : ℕ → Text → List SerializedGossipPeer → ControlAction

pub record Rpc : Type 0 where
  pub messages : List Text
  pub control_msgs : List ControlAction
