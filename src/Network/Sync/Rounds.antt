-- ===== src/Network/Sync/Rounds.antt =====
-- The loop of `manage_data_synchronization` of database/src/network.rs.
use samaritan_db.Prelude.{
  ℕ, refl, ap, inl, inr, Bool, true, false, Option, none, some, List, num_eq, Bool-cases,
  Option-cases, unwrap_or, is_some, is_empty, [], ◌≡◌, ◌∙◌, ◌&&◌, if◌then◌else◌,
}
use samaritan_db.Text.{Text, eq_refl, ◌==◌}
use samaritan_db.Dict.{Dict}
use samaritan_db.Dict
use samaritan_db.Network.State.{IpfsManager, GossipPeer}
use samaritan_db.Network.Image.{
  update_data_image, Ipfs, Call, publish_table, upload_entries, simple_table, app_table,
}
use samaritan_db.Network.Sync.{turn, monitor_synching, count, set_turn}
use samaritan_db.Database.State.{DbState, HashTable}

-- What a round of the loop comes to: the application is no longer served; its data has been uploaded,
-- and the peers may be told the count; or the node waits for its turn, with the tasks it started.
pub data Duty : Type 0 where
  relinquished : Duty
  updated : List Call → Option (ℕ × List GossipPeer) → Duty
  watching : List ℕ → Duty

-- The loop's body without its wait, for the number of nodes that the contract lists.
unfoldable pub manage_round :
    Ipfs
    → Text
    → ℕ
    → List GossipPeer
    → ℕ
    → ℕ
    → DbState
    → IpfsManager
    → Duty × (DbState × IpfsManager)
manage_round ipfs did subscribed fm_peers default now s m =
    if is_some (Dict.lookup did m.cids)
    then (if num_eq subscribed 1 && is_empty (unwrap_or (Dict.lookup did m.sync_peers) [])
        then (let (s', (m', calls)) = update_data_image ipfs did s (set_turn did true m) in
            (updated calls none, (s', m')))
        else (elim (Dict.lookup did m.is_node_sync_turn) [
          | some node_sync_turn ↦
              if node_sync_turn
              then (let (s', (m', calls)) = update_data_image ipfs did s m in
                  (
                    updated calls
                        (if is_empty fm_peers then none else some (count did m', fm_peers)),
                    (s', m'),
                  ))
              else (watching (monitor_synching did default now m), (s, m))
          | none ↦ (
            watching (monitor_synching did default now (set_turn did false m)),
            (s, set_turn did false m),
          )
        ]))
    else (relinquished, (s, m))

-- An upload leaves turns and counts alone.
abbrev SameTurns : IpfsManager → IpfsManager → Type 0
SameTurns m' m =
    (m'.is_node_sync_turn ≡ m.is_node_sync_turn) × (m'.data_update_count ≡ m.data_update_count)

publish_table-SameTurns :
    (ipfs : Ipfs) (did : Text) (m : IpfsManager) (t : HashTable)
    → SameTurns (publish_table ipfs did m t).0 m
unfolding publish_table
publish_table-SameTurns ipfs did m t = elim (Bool-cases (is_empty t)) [
  | inl bare ↦ rw bare (refl, refl)
  | inr full ↦ elim (Option-cases (ipfs.write_table (simple_table t))) [
    | inl lost ↦ rw (full, lost) (refl, refl)
    | inr (cid, e) ↦ elim (Bool-cases (cid == unwrap_or (Dict.lookup did m.cids) [])) [
      | inl same ↦ rw (full, e, same) (refl, refl)
      | inr changed ↦ rw (full, e, changed) (refl, refl)
    ]
  ]
]

update_data_image-SameTurns :
    (ipfs : Ipfs) (did : Text) (s : DbState) (m : IpfsManager)
    → SameTurns (update_data_image ipfs did s m).1.0 m
unfolding update_data_image
update_data_image-SameTurns ipfs did s m =
    elim (Bool-cases (unwrap_or (Dict.lookup did m.modified) false)) [
      | inl changed ↦ elim (Bool-cases (is_empty (app_table did s))) [
        | inl bare ↦ rw (changed, bare) (refl, refl)
        | inr full ↦
            rw (changed, full)
              (publish_table-SameTurns ipfs did m
                (app_table did (upload_entries ipfs did m (app_table did s) (app_table did s) s).0))
      ]
      | inr kept ↦ rw kept (refl, refl)
    ]

module _ (ipfs : Ipfs) (did : Text) (subscribed : ℕ) (fm_peers : List GossipPeer) (default now : ℕ)
    (s : DbState) (m : IpfsManager) where
  -- Whoever uploads an application's data has its turn.
  pub manage_round-turn :
      (calls : List Call) (told : Option (ℕ × List GossipPeer))
      → let (duty, (s', m')) = manage_round ipfs did subscribed fm_peers default now s m in
        duty ≡ updated calls told → turn did m' ≡ true
  unfolding manage_round
  manage_round-turn calls told = elim (Bool-cases (is_some (Dict.lookup did m.cids))) [
    | inl served ↦ elim (Bool-cases alone) [
      | inl one ↦
          rw (served, one)
            (λ h.
              same_turn (set_turn did true m) (rw (Dict.lookup-insert did did, eq_refl did) refl))
      | inr more ↦ elim (Option-cases (Dict.lookup did m.is_node_sync_turn)) [
        | inl missing ↦ rw (served, more, missing) (λ h. cc)
        | inr (b, e) ↦ elim (Bool-cases b) [
          | inl mine ↦ rw (served, more, e, mine) (λ h. same_turn m (rw (e, mine) refl))
          | inr other ↦ rw (served, more, e, other) (λ h. cc)
        ]
      ]
    ]
    | inr left ↦ rw left (λ h. cc)
  ]
    where
      alone : Bool
      alone = num_eq subscribed 1 && is_empty (unwrap_or (Dict.lookup did m.sync_peers) [])

      same_turn :
          (n : IpfsManager)
          → turn did n ≡ true
          → turn did (update_data_image ipfs did s n).1.0 ≡ true
      same_turn n h =
          ap (λ d. unwrap_or (Dict.lookup did d) false) (update_data_image-SameTurns ipfs did s n).0
          ∙ h

  pub manage_round-counts :
      (manage_round ipfs did subscribed fm_peers default now s m).1.1.data_update_count
      ≡ m.data_update_count
  unfolding manage_round
  manage_round-counts = elim (Bool-cases (is_some (Dict.lookup did m.cids))) [
    | inl served ↦ elim (Bool-cases alone) [
      | inl one ↦
          rw (served, one) ((update_data_image-SameTurns ipfs did s (set_turn did true m)).1)
      | inr more ↦ elim (Option-cases (Dict.lookup did m.is_node_sync_turn)) [
        | inl missing ↦ rw (served, more, missing) refl
        | inr (b, e) ↦ elim (Bool-cases b) [
          | inl mine ↦ rw (served, more, e, mine) ((update_data_image-SameTurns ipfs did s m).1)
          | inr other ↦ rw (served, more, e, other) refl
        ]
      ]
    ]
    | inr left ↦ rw left refl
  ]
    where
      alone : Bool
      alone = num_eq subscribed 1 && is_empty (unwrap_or (Dict.lookup did m.sync_peers) [])
