-- ===== src/Network/Sync/Counts.antt =====
-- The changes of turns and counts in any order, and the bound of the counts.
use samaritan_db.Dict
use samaritan_db.Network.Sync.Rounds.{manage_round, manage_round-counts}
use samaritan_db.Network.State.{IpfsManager, GossipPeer, SerializedGossipPeer}
use samaritan_db.Network.Image.{Ipfs}
use samaritan_db.Network.Sync.{
  set_turn, resolve, count, max_data_update_count, turn, take_over, sync_received, sync_sent, seize,
}
use samaritan_db.Database.State.{DbState}
use samaritan_db.Prelude.{
  ℕ, refl, inl, inr, Bool, true, false, List, arith, leb, num_eq, Bool-cases, Option-cases,
  unwrap_or, [], ◌+◌, ◌<◌, ◌≡◌, if◌then◌else◌,
}
use samaritan_db.Text.{Text, ◌==◌}
use samaritan_db.Dict.{Dict}

-- The steps that change turns and counts: they come in any order, for any application.
pub data Step (m : IpfsManager) : IpfsManager → Type 0 where
  sends : (did : Text) (now : ℕ) {m' : IpfsManager} → m' ≡ sync_sent did now m → Step m m'
  receives :
      (n : ℕ) (did : Text) (peers : List SerializedGossipPeer) (now : ℕ) {m' : IpfsManager}
      → m' ≡ sync_received n did peers now m
      → Step m m'
  takes_over :
      (did : Text) (time default now : ℕ) {m' : IpfsManager}
      → m' ≡ take_over did time default now m
      → Step m m'
  seizes : (did : Text) (now : ℕ) {m' : IpfsManager} → m' ≡ seize did now m → Step m m'
  makes_round :
      (ipfs : Ipfs) (did : Text) (subscribed : ℕ) (fm_peers : List GossipPeer) (default now : ℕ)
      (s : DbState) {m' : IpfsManager}
      → m' ≡ (manage_round ipfs did subscribed fm_peers default now s m).1.1
      → Step m m'

-- What a node's record passes through from one without counts.
pub data Reach : IpfsManager → Type 0 where
  from_start : {m : IpfsManager} → m.data_update_count ≡ [] → Reach m
  follows : {m m' : IpfsManager} → Reach m → Step m m' → Reach m'

-- A property of the counts alone: that each is below the bound.
abbrev Below : Dict ℕ → Type 0
Below counts = (did : Text) → unwrap_or (Dict.lookup did counts) 0 < max_data_update_count

Below-insert :
    (did : Text) (n : ℕ) (counts : Dict ℕ)
    → n < max_data_update_count
    → Below counts
    → Below (Dict.insert did n counts)
Below-insert did n counts h b j = elim (Bool-cases (did == j)) [
  | inl here ↦ rw (Dict.lookup-insert j did, here) h
  | inr there ↦ rw (Dict.lookup-insert j did, there) (b j)
]

sync_sent-Below :
    (did : Text) (now : ℕ) (m : IpfsManager)
    → Below m.data_update_count
    → Below (sync_sent did now m).data_update_count
unfolding sync_sent
sync_sent-Below did now m b = elim (Bool-cases (num_eq (count did m) 0)) [
  | inl first ↦ rw first (Below-insert did (count did m + 1) m.data_update_count (ground arith) b)
  | inr later ↦ elim (Bool-cases (num_eq (count did m + 1) max_data_update_count)) [
    | inl full ↦ rw (later, full) (Below-insert did 0 m.data_update_count (omega arith) b)
    | inr room ↦
        rw (later, room)
          (Below-insert did (count did m + 1) m.data_update_count (ground (arith, b did)) b)
  ]
]

resolve-Below :
    (n : ℕ) (did : Text) (m : IpfsManager)
    → Below m.data_update_count
    → Below (resolve n did m).data_update_count
unfolding resolve
resolve-Below n did m b = elim (Bool-cases (turn did m)) [
  | inl mine ↦ elim (Option-cases (Dict.lookup did m.data_update_count)) [
    | inl missing ↦ rw (mine, missing) b
    | inr (k, e) ↦ elim (Bool-cases (leb k n)) [
      | inl yields ↦ rw (mine, e, yields) (Below-insert did 0 m.data_update_count (omega arith) b)
      | inr stays ↦ rw (mine, e, stays) b
    ]
  ]
  | inr other ↦ rw other b
]

take-counts :
    (b : Bool) (did : Text) (m : IpfsManager)
    → (if b then set_turn did true m else m).data_update_count ≡ m.data_update_count
take-counts true did m = refl
take-counts false did m = refl

Step-Below :
    {m m' : IpfsManager} → Step m m' → Below m.data_update_count → Below m'.data_update_count
unfolding sync_received take_over seize
Step-Below {m} (sends did now e) b = rw e (sync_sent-Below did now m b)
Step-Below {m} (receives n did peers now e) b = rw e (resolve-Below n did m b)
Step-Below {m} (takes_over did time default now e) b = rw e (rw (take-counts _ did m) b)
Step-Below {m} (seizes did now e) b = rw e (rw (take-counts _ did m) b)
Step-Below {m} (makes_round ipfs did subscribed fm_peers default now s e) b =
    rw e (rw (manage_round-counts ipfs did subscribed fm_peers default now s m) b)

-- Whatever messages are sent and received, turns taken and rounds made, in any order: a node never
-- counts seven updates for an application.
pub Reach-count : {m : IpfsManager} → Reach m → (did : Text) → count did m < max_data_update_count
Reach-count (from_start e) did = rw e (rw Dict.lookup-nil (omega arith))
Reach-count (follows r s) did = Step-Below s (Reach-count r) did
