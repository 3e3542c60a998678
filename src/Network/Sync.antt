-- ===== src/Network/Sync.antt =====
-- The turn to upload an application's data: `ChannelMsg::GossipSyncMsg`, `ControlAction::Sync`,
-- `monitor_synching` and `manage_data_synchronization` of database/src/network.rs. An instant is a
-- number of seconds; the code's readings of it are arguments.
pub mod Turn
pub mod Rounds
pub mod Counts
use samaritan_db.Prelude.{
  ℕ, Bool, true, false, not, none, some, List, ltb, leb, num_eq, unwrap_or, is_empty, [], ◌+◌, ◌-◌,
  ◌*◌, ◌&&◌, ◌∷◌, if◌then◌else◌,
}
use samaritan_db.Text.{Text, ◌==◌}
use samaritan_db.Dict.{Dict}
use samaritan_db.Dict
use samaritan_db.Network.State.{SerializedGossipPeer, IpfsManager}

abbrev pub max_data_update_count : ℕ
max_data_update_count = 7

abbrev pub sync_frequency : ℕ
sync_frequency = 10

abbrev pub additional_wait_period : ℕ
additional_wait_period = 10

abbrev pub turn : Text → IpfsManager → Bool
turn did m = unwrap_or (Dict.lookup did m.is_node_sync_turn) false

abbrev pub count : Text → IpfsManager → ℕ
count did m = unwrap_or (Dict.lookup did m.data_update_count) 0

abbrev pub set_turn : Text → Bool → IpfsManager → IpfsManager
set_turn did b m = record m { is_node_sync_turn = Dict.insert did b m.is_node_sync_turn }

abbrev pub set_count : Text → ℕ → IpfsManager → IpfsManager
set_count did n m = record m { data_update_count = Dict.insert did n m.data_update_count }

abbrev pub set_last : Text → ℕ → IpfsManager → IpfsManager
set_last did t m = record m { last_sync_time = Dict.insert did t m.last_sync_time }

-- The counting that follows the messages to the peers.
unfoldable pub sync_sent : Text → ℕ → IpfsManager → IpfsManager
sync_sent did now m =
    if not (num_eq (count did m) 0)
    then (if num_eq (count did m + 1) max_data_update_count
        then set_last did (now + 20) (set_turn did false (set_count did 0 m))
        else set_count did (count did m + 1) m)
    else set_count did (count did m + 1) m

-- The node with the greater count stays.
unfoldable pub resolve : ℕ → Text → IpfsManager → IpfsManager
resolve update_count topic m =
    if turn topic m
    then (elim (Dict.lookup topic m.data_update_count) [
      | some node_update_count ↦
          if leb node_update_count update_count
          then set_turn topic false (set_count topic 0 m)
          else m
      | none ↦ m
    ])
    else m

unfoldable pub sync_received : ℕ → Text → List SerializedGossipPeer → ℕ → IpfsManager → IpfsManager
unfolding resolve
sync_received update_count topic peers now m =
    let r : IpfsManager = resolve update_count topic m in
    set_last topic now (record r { sync_peers = Dict.insert topic peers r.sync_peers })

-- The tasks that `monitor_synching` starts, each one for each place that the node has
-- on the list of the last message.
unfoldable pub take_over_times : ℕ → Text → List SerializedGossipPeer → List ℕ
take_over_times i node_peer_id [] = []
take_over_times i node_peer_id (peer ∷ peers) =
    let rest : List ℕ = take_over_times (i + 1) node_peer_id peers in
    if peer.serialized_id == node_peer_id then (i + 1) * 10 ∷ rest else rest

-- `default` is the reading that stands for a missing time.
unfoldable pub monitor_synching : Text → ℕ → ℕ → IpfsManager → List ℕ
unfolding take_over_times
monitor_synching did default now m =
    if ltb (sync_frequency + additional_wait_period)
      (now - unwrap_or (Dict.lookup did m.last_sync_time) default)
    then take_over_times 0 m.node_id (unwrap_or (Dict.lookup did m.sync_peers) [])
    else []

-- The task, after its delay.
unfoldable pub take_over : Text → ℕ → ℕ → ℕ → IpfsManager → IpfsManager
take_over did take_over_time default now m =
    if ltb (sync_frequency + additional_wait_period + take_over_time)
      (now - unwrap_or (Dict.lookup did m.last_sync_time) default)
    then set_turn did true m
    else m

-- The task that a subscription starts, after three minutes; a missing time is ten minutes ago.
unfoldable pub seize : Text → ℕ → IpfsManager → IpfsManager
seize did now m =
    if not (turn did m)
      && ltb (unwrap_or (Dict.lookup did m.last_sync_time) (now - 600)) (now - 180)
      && is_empty (unwrap_or (Dict.lookup did m.sync_peers) [])
    then set_turn did true m
    else m
