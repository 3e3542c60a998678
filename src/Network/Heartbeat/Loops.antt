-- ===== src/Network/Heartbeat/Loops.antt =====
-- The two loops of the heartbeat that move peers.
use samaritan_db.Prelude.{
  ℕ, zero, suc, refl, ap, Bool, true, false, some, List, arith, leb, num_eq, length, take, drop, [],
  ap₂, ◌-◌, ◌^◌, ◌≤◌, ◌<◌, ◌≡◌, ◌∙◌, ◌∷◌,
}
use samaritan_db.Network.Heartbeat.{prune_peers, graft_peers, push}
use samaritan_db.Network.State.{GossipPeer}

-- A difference that is not 0 moves as many metadata peers up, or all there are.
pub graft_peers-take :
    (checks : Bool) (diff : ℕ) (metapeers : List GossipPeer)
    → 0 < diff
    → graft_peers checks diff metapeers ≡ some (take diff metapeers)
unfolding graft_peers
graft_peers-take checks zero metapeers h = absurd (omega arith)
graft_peers-take checks (suc diff) [] h = refl
graft_peers-take checks (suc zero) (p ∷ ps) h = refl
graft_peers-take checks (suc (suc diff)) (p ∷ ps) h =
    let lowered : leb 1 (suc (suc diff)) ≡ true = ground arith in
    let more : num_eq (suc (suc diff) - 1) 0 ≡ false = ground arith in
    let left : suc (suc diff) - 1 ≡ suc diff = omega arith in
    rw (graft_peers, lowered, more, left)
      (ap (push p) (graft_peers-take checks (suc diff) ps (omega arith)))

-- The loop that moves peers down takes as many from the end.
pub prune_peers-take :
    (diff : ℕ) (peers : List GossipPeer)
    → prune_peers diff peers ≡ (drop diff peers, take diff peers)
unfolding prune_peers
prune_peers-take zero peers = refl
prune_peers-take (suc diff) [] =
    prune_peers-take diff [] ∙ ap₂ (λ xs ys. (xs, ys)) (drop_nil diff) (take_nil diff)
  where
    drop_nil : (n : ℕ) → drop {A = GossipPeer} n [] ≡ []
    drop_nil zero = refl
    drop_nil (suc n) = refl

    take_nil : (n : ℕ) → take {A = GossipPeer} n [] ≡ []
    take_nil zero = refl
    take_nil (suc n) = refl
prune_peers-take (suc diff) (p ∷ ps) =
    ap (λ (r : List GossipPeer × List GossipPeer). (r.0, p ∷ r.1)) (prune_peers-take diff ps)

-- Without overflow checks a difference of 0 wraps: the loop moves all metadata peers, if there are
-- fewer than 2 ^ 64.
pub graft_peers_all :
    (metapeers : List GossipPeer)
    → length metapeers < 2 ^ 64
    → graft_peers false 0 metapeers ≡ some metapeers
unfolding graft_peers
graft_peers_all [] h = refl
graft_peers_all (p ∷ ps) h =
    ap (push p) (graft_peers-take false (2 ^ 64 - 1) ps (omega arith))
    ∙ ap (λ xs. some (p ∷ xs)) (take_all (2 ^ 64 - 1) ps (omega arith))
  where
    take_all : (n : ℕ) (xs : List GossipPeer) → length xs ≤ n → take n xs ≡ xs
    take_all zero [] k = refl
    take_all zero (x ∷ xs) k = absurd (omega arith)
    take_all (suc n) [] k = refl
    take_all (suc n) (x ∷ xs) k = ap (◌∷◌ x) (take_all n xs (omega arith))
