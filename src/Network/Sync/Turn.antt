-- ===== src/Network/Sync/Turn.antt =====
-- How long a node keeps its turn, and how two nodes that both have it settle.
use samaritan_db.Prelude.{
  ℕ, refl, inl, inr, Bool, true, false, some, List, arith, ltb, leb, num_eq, Bool-cases, length, [],
  ◌+◌, ◌<◌, ◌≡◌, ◌∙◌, ◌∷◌,
}
use samaritan_db.Text.{Text, eq_refl}
use samaritan_db.Dict.{Dict}
use samaritan_db.Dict
use samaritan_db.Network.State.{SerializedGossipPeer, IpfsManager}
use samaritan_db.Network.Sync.{
  max_data_update_count, turn, count, resolve, sync_sent, sync_received, set_count, set_turn,
}

-- The messages of one node, sent at the given instants.
unfoldable pub sent_all : Text → List ℕ → IpfsManager → IpfsManager
unfolding sync_sent
sent_all did [] m = m
sent_all did (now ∷ rest) m = sent_all did rest (sync_sent did now m)

count-set_count : (did : Text) (n : ℕ) (m : IpfsManager) → count did (set_count did n m) ≡ n
count-set_count did n m = rw (Dict.lookup-insert did did, eq_refl did) refl

turn-set_turn : (did : Text) (b : Bool) (m : IpfsManager) → turn did (set_turn did b m) ≡ b
turn-set_turn did b m = rw (Dict.lookup-insert did did, eq_refl did) refl

-- One message of a node that has its turn.
sync_sent-turn :
    (did : Text) (now : ℕ) (m : IpfsManager)
    → count did m + 1 < max_data_update_count
    → (count did (sync_sent did now m) ≡ count did m + 1)
      × (turn did (sync_sent did now m) ≡ turn did m)
unfolding sync_sent
sync_sent-turn did now m h = elim (Bool-cases (num_eq (count did m) 0)) [
  | inl first ↦ rw first (count-set_count did (count did m + 1) m, refl)
  | inr later ↦
      let below : num_eq (count did m + 1) max_data_update_count ≡ false = ground arith in
      rw (later, below) (count-set_count did (count did m + 1) m, refl)
]

sync_sent-pass :
    (did : Text) (now : ℕ) (m : IpfsManager)
    → count did m + 1 ≡ max_data_update_count
    → (count did (sync_sent did now m) ≡ 0) × (turn did (sync_sent did now m) ≡ false)
unfolding sync_sent
sync_sent-pass did now m h =
    let later : num_eq (count did m) 0 ≡ false = ground arith in
    let full : num_eq (count did m + 1) max_data_update_count ≡ true = ground arith in
    rw (later, full) (count-set_count did 0 m, turn-set_turn did false m)

-- A node keeps its turn as long as fewer than seven updates are counted.
sent_all-turn :
    (did : Text) (times : List ℕ) (m : IpfsManager)
    → count did m + length times < max_data_update_count
    → (count did (sent_all did times m) ≡ count did m + length times)
      × (turn did (sent_all did times m) ≡ turn did m)
unfolding sent_all
sent_all-turn did [] m h = (omega arith, refl)
sent_all-turn did (now ∷ times) m h =
    let one : (count did m' ≡ count did m + 1) × (turn did m' ≡ turn did m) =
      sync_sent-turn did now m (omega arith) in
    let more : (count did (sent_all did times m') ≡ count did m' + length times)
        × (turn did (sent_all did times m') ≡ turn did m') =
      sent_all-turn did times m' (omega (arith, one.0)) in
    (omega (arith, one.0, more.0), more.1 ∙ one.1)
  where
    m' : IpfsManager
    m' = sync_sent did now m

-- A node that has counted fewer than seven updates gives its turn away by its seventh message, not by
-- an earlier one, and then counts from 0 again.
pub sent_all-passes :
    (did : Text) (times : List ℕ) (last : ℕ) (m : IpfsManager)
    → turn did m ≡ true
    → count did m + length times + 1 ≡ max_data_update_count
    → (turn did (sent_all did times m) ≡ true)
      × (turn did (sync_sent did last (sent_all did times m)) ≡ false)
      × (count did (sync_sent did last (sent_all did times m)) ≡ 0)
sent_all-passes did times last m t h =
    let kept : (count did m' ≡ count did m + length times) × (turn did m' ≡ turn did m) =
      sent_all-turn did times m (omega arith) in
    let passed : (count did (sync_sent did last m') ≡ 0)
        × (turn did (sync_sent did last m') ≡ false) =
      sync_sent-pass did last m' (omega (arith, kept.0)) in
    (kept.1 ∙ t, passed.1, passed.0)
  where
    m' : IpfsManager
    m' = sent_all did times m

-- A node that has the turn and has counted its updates keeps it on a message of another that also
-- has it exactly if its own count is greater.
pub sync_received-turn :
    (n k : ℕ) (topic : Text) (peers : List SerializedGossipPeer) (now : ℕ) (m : IpfsManager)
    → turn topic m ≡ true
    → Dict.lookup topic m.data_update_count ≡ some k
    → turn topic (sync_received n topic peers now m) ≡ ltb n k
unfolding sync_received resolve
sync_received-turn n k topic peers now m h e = elim (Bool-cases (leb k n)) [
  | inl yields ↦
      let fewer : ltb n k ≡ false = ground arith in
      rw (h, e, yields, fewer) (turn-set_turn topic false (set_count topic 0 m))
  | inr stays ↦ let more : ltb n k ≡ true = ground arith in rw (h, e, stays, more) h
]

lookup-sync_sent :
    (did : Text) (now : ℕ) (m : IpfsManager)
    → count did m + 1 < max_data_update_count
    → Dict.lookup did (sync_sent did now m).data_update_count ≡ some (count did m + 1)
unfolding sync_sent
lookup-sync_sent did now m h = elim (Bool-cases (num_eq (count did m) 0)) [
  | inl first ↦ rw (first, Dict.lookup-insert did did, eq_refl did) refl
  | inr later ↦
      let below : num_eq (count did m + 1) max_data_update_count ≡ false = ground arith in
      rw (later, below, Dict.lookup-insert did did, eq_refl did) refl
]

-- Two nodes that both have the turn, neither at its last message of it, each send a SYNC, which carries
-- the count from before the message, and each receive the other's: a node keeps the turn exactly if
-- the other's count was not greater than its own. If the counts are equal, both keep it.
pub sync_sent-conflict :
    (topic : Text) (from_a from_b : List SerializedGossipPeer) (sent received : ℕ)
    (a b : IpfsManager)
    → turn topic a ≡ true
    → turn topic b ≡ true
    → count topic a + 1 < max_data_update_count
    → count topic b + 1 < max_data_update_count
    → let a' : IpfsManager =
        sync_received (count topic b) topic from_b received (sync_sent topic sent a) in
      let b' : IpfsManager =
        sync_received (count topic a) topic from_a received (sync_sent topic sent b) in
      (turn topic a' ≡ leb (count topic b) (count topic a))
      × (turn topic b' ≡ leb (count topic a) (count topic b))
sync_sent-conflict topic from_a from_b sent received a b h k below_a below_b =
    (stays from_b a (count topic b) h below_a, stays from_a b (count topic a) k below_b)
  where
    ltb-suc : (n k : ℕ) → ltb n (k + 1) ≡ leb n k
    ltb-suc n k = ground arith

    stays :
        (peers : List SerializedGossipPeer) (m : IpfsManager) (n : ℕ)
        → turn topic m ≡ true
        → count topic m + 1 < max_data_update_count
        → turn topic (sync_received n topic peers received (sync_sent topic sent m))
          ≡ leb n (count topic m)
    stays peers m n has_turn below =
        sync_received-turn n (count topic m + 1) topic peers received (sync_sent topic sent m)
          ((sync_sent-turn topic sent m below).1 ∙ has_turn) (lookup-sync_sent topic sent m below)
        ∙ ltb-suc n (count topic m)
