-- ===== src/Network/Heartbeat/Blocked.antt =====
-- When a heartbeat comes to its end.
use samaritan_db.Prelude.{Bool, false, List, length, [], ◌≤◌, ◌<◌, ◌≡◌, ◌⊎◌}
use samaritan_db.Text.{Text}
use samaritan_db.Dict.{Dict}
use samaritan_db.Network.Heartbeat.{
  settled, Beat, waits_forever, prunes, overflowed, Upkeep, grafts, overflow_panic,
}
use samaritan_db.Network.State.{PeersManager, GossipPeer}
use samaritan_db.Network.Client.{peers_of}

-- A topic whose peers need no upkeep: it has a right number of full-message peers, or too few, but no
-- metadata peers to move up. In a build that checks overflow, too few are at most `d_low`.
pub data IsBalanced (checks : Bool) (g : PeersManager) (topic : Text) (peers : List GossipPeer)
    : Type 0 where
  enough :
      g.config.d ≤ length peers → length peers ≤ g.config.d_high → IsBalanced checks g topic peers
  alone :
      length peers < g.config.d
      → peers_of topic g.metadata_peers ≡ []
      → (checks ≡ false) ⊎ (length peers ≤ g.config.d_low)
      → IsBalanced checks g topic peers

-- The rest of the loop after a topic.
abbrev after_upkeep : Upkeep → Text → Beat → Beat
after_upkeep settled topic rest = rest
after_upkeep overflowed topic rest = overflow_panic
after_upkeep (grafts _ _) topic rest = waits_forever topic
after_upkeep (prunes _ _) topic rest = waits_forever topic
