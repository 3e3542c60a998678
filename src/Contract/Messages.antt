-- ===== src/Contract/Messages.antt =====
-- The messages of database/contract/lib.rs that write, as one step relation on the storage, and
-- what holds of every storage that a deployed contract can reach.
use samaritan_db.Prelude.{refl, inl, inr, arith, ◌≡◌, ◌⊎◌}
use samaritan_db.Text.{Text}
use samaritan_db.Contract.State.{DbContract, Outcome, new}
use samaritan_db.Contract.Nodes
use samaritan_db.Contract.Nodes.{IsBounded}
use samaritan_db.Contract.Accounts
use samaritan_db.Contract.Subscribers
use samaritan_db.Contract.Subscribers.{HasDistinct}
use samaritan_db.Contract.Access

pub data Message : Type 0 where
  new_account : Text → Text → Text → Message
  update_account_ht_cid : Text → Text → Message
  add_address remove_address : Text → Message
  subscribe_node unsubscribe_node : Text → Text → Message
  restrict unrestrict : Text → Text → Message

unfoldable pub handle : Message → DbContract → Outcome
handle (new_account did cid auth) c = Accounts.new_account did cid auth c
handle (update_account_ht_cid did cid) c = Accounts.update_account_ht_cid did cid c
handle (add_address addr) c = Nodes.add_address addr c
handle (remove_address addr) c = Nodes.remove_address addr c
handle (subscribe_node did addr) c = Subscribers.subscribe_node did addr c
handle (unsubscribe_node did addr) c = Subscribers.unsubscribe_node did addr c
handle (restrict user app) c = Access.restrict user app c
handle (unrestrict user app) c = Access.unrestrict user app c

-- A call of any message, by anyone.
pub data Step (c : DbContract) : DbContract → Type 0 where
  call : (m : Message) {c' : DbContract} → c' ≡ (handle m c).0 → Step c c'

-- The storages that a contract passes through after its deployment.
pub data Reach : DbContract → Type 0 where
  deployed : {c : DbContract} → c ≡ new → Reach c
  then_call : {c c' : DbContract} → Reach c → Step c c' → Reach c'

pub record IsValid (c : DbContract) : Type 0 where
  pub bounded : IsBounded c
  pub distinct : HasDistinct c

-- The two parts of the invariant, for a message that leaves a part alone.
keeps :
    (c c' : DbContract)
    → IsValid c
    → (c'.nodes ≡ c.nodes) ⊎ IsBounded c'
    → (c'.subscribers ≡ c.subscribers) ⊎ HasDistinct c'
    → IsValid c'
keeps c c' v n s = record { bounded = nodes_kept n; distinct = subscribers_kept s }
  where
    nodes_kept : (c'.nodes ≡ c.nodes) ⊎ IsBounded c' → IsBounded c'
    nodes_kept (inl e) = record {
      within = rw e v.bounded.within;
      distinct = rw e v.bounded.distinct;
    }
    nodes_kept (inr b) = b

    subscribers_kept : (c'.subscribers ≡ c.subscribers) ⊎ HasDistinct c' → HasDistinct c'
    subscribers_kept (inl e) = rw e v.distinct
    subscribers_kept (inr h) = h

handle-IsValid : (m : Message) (c : DbContract) → IsValid c → IsValid (handle m c).0
unfolding handle Accounts.new_account Accounts.update_account_ht_cid Nodes.add_address
    Nodes.remove_address Subscribers.subscribe_node Subscribers.unsubscribe_node Access.restrict
    Access.unrestrict
handle-IsValid (new_account did cid auth) c v = keeps c _ v (inl refl) (inl refl)
handle-IsValid (update_account_ht_cid did cid) c v =
    keeps c (Accounts.update_account_ht_cid did cid c).0 v (inl (ground arith)) (inl (ground arith))
handle-IsValid (add_address addr) c v =
    keeps c (Nodes.add_address addr c).0 v (inr (Nodes.add_address-IsBounded addr c v.bounded))
      (inl (ground arith))
handle-IsValid (remove_address addr) c v =
    keeps c (Nodes.remove_address addr c).0 v
      (inr (Nodes.remove_address-IsBounded addr c v.bounded)) (inl (ground arith))
handle-IsValid (subscribe_node did addr) c v =
    keeps c (Subscribers.subscribe_node did addr c).0 v (inl (ground arith))
      (inr (Subscribers.subscribe_node-HasDistinct did addr c v.distinct))
handle-IsValid (unsubscribe_node did addr) c v =
    keeps c (Subscribers.unsubscribe_node did addr c).0 v (inl (ground arith))
      (inr (Subscribers.unsubscribe_node-HasDistinct did addr c v.distinct))
handle-IsValid (restrict user app) c v =
    keeps c (Access.restrict user app c).0 v (inl (ground arith)) (inl (ground arith))
handle-IsValid (unrestrict user app) c v =
    keeps c (Access.unrestrict user app c).0 v (inl (ground arith)) (inl (ground arith))

new-IsValid : IsValid new
unfolding new
new-IsValid = record { bounded = record { within = omega arith; distinct = tt }; distinct = tt }

-- Whatever messages a deployed contract has handled, it lists at most ten boot nodes, none of them
-- twice, and no node twice among the subscribers of an application.
pub Reach-IsValid : {c : DbContract} → Reach c → IsValid c
Reach-IsValid (deployed e) = rw e new-IsValid
Reach-IsValid (then_call {c} r (call m e)) = rw e (handle-IsValid m c (Reach-IsValid r))
