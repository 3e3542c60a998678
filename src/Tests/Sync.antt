-- ===== src/Tests/Sync.antt =====
-- The upload of data and the turn to do so, at concrete values.
use samaritan_db.Prelude.{ℕ, refl, true, false, some, arith, unwrap_or, [], ◌<◌, ◌≡◌, ◌∷◌}
use samaritan_db.Text.{codes, ◌==◌}
use samaritan_db.Dict.{Dict}
use samaritan_db.Network.Sync.Counts.{Reach-count, sends, follows, from_start}
use samaritan_db.Dict
use samaritan_db.Network.Image.Entries.{
  OneSaved, update_data_image-publishes, update_data_image-OneSaved,
}
use samaritan_db.Network.Sync.Turn.{sent_all-passes, sent_all, sync_sent-conflict}
use samaritan_db.Network.State.{IpfsManager}
use samaritan_db.Network.Image.{app_table, update_data_image, Ipfs}
use samaritan_db.Network.Sync.{count, sync_sent, sync_received, max_data_update_count, turn}
use samaritan_db.Tests.Data.{node_state, app}
use samaritan_db.Tests.Replication.{ipfs_manager}

-- Every upload gets the same content id.
abbrev new_ipfs : Ipfs
new_ipfs = record { write_data = λ m. some (codes "Qd"); write_table = λ t. some (codes "Qt") }

abbrev changed : IpfsManager
changed = record ipfs_manager { modified = (app, true) ∷ [] }

update_data_image-OneSaved_example :
    OneSaved
      (app_table app node_state)
      (app_table app (update_data_image new_ipfs app node_state changed).0)
unfolding Dict.lookup ◌==◌
update_data_image-OneSaved_example =
    update_data_image-OneSaved new_ipfs app node_state changed (refl, (refl, tt))

update_data_image-publishes_example :
    let (s', (m', calls)) = update_data_image new_ipfs app node_state changed in
    (unwrap_or (Dict.lookup app m'.cids) [] ≡ codes "Qt")
    × (Dict.lookup app m'.modified ≡ some false)
unfolding Dict.lookup ◌==◌
update_data_image-publishes_example =
    update_data_image-publishes new_ipfs app (codes "Qt") node_state changed refl refl
      (refl, (refl, tt)) refl

-- A node that has the turn and has counted six and three updates.
abbrev counting : ℕ → IpfsManager
counting n = record ipfs_manager {
  is_node_sync_turn = (app, true) ∷ [];
  data_update_count = (app, n) ∷ [];
}

sent_all-passes_example :
    (turn app (sent_all app (10 ∷ 20 ∷ []) (counting 4)) ≡ true)
    × (turn app (sync_sent app 30 (sent_all app (10 ∷ 20 ∷ []) (counting 4))) ≡ false)
    × (count app (sync_sent app 30 (sent_all app (10 ∷ 20 ∷ []) (counting 4))) ≡ 0)
unfolding Dict.lookup ◌==◌
sent_all-passes_example = sent_all-passes app (10 ∷ 20 ∷ []) 30 (counting 4) refl refl

sync_sent-conflict_example :
    let a' : IpfsManager = sync_received 3 app [] 10 (sync_sent app 5 (counting 4)) in
    let b' : IpfsManager = sync_received 4 app [] 10 (sync_sent app 5 (counting 3)) in
    (turn app a' ≡ true) × (turn app b' ≡ false)
unfolding Dict.lookup ◌==◌
sync_sent-conflict_example =
    sync_sent-conflict app [] [] 5 10 (counting 4) (counting 3) refl refl (omega arith)
      (omega arith)

Reach-count_example : count app (sync_sent app 10 ipfs_manager) < max_data_update_count
Reach-count_example = Reach-count (follows (from_start refl) (sends app 10 refl)) app
