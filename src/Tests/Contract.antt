-- ===== src/Tests/Contract.antt =====
-- The contract at a concrete storage.
use samaritan_db.Prelude.{refl, arith, ◌≡◌}
use samaritan_db.Text.{contains, eq_iff, ◌==◌}
use samaritan_db.Tests.Data.{app, contract, sam}
use samaritan_db.Contract.Messages
use samaritan_db.Contract.Nodes
use samaritan_db.Contract.Access
use samaritan_db.Contract.State

Reach-IsValid_example : Messages.IsValid (Messages.handle (Messages.add_address sam) State.new).0
Reach-IsValid_example =
    Messages.Reach-IsValid
      (Messages.then_call (Messages.deployed refl) (Messages.call (Messages.add_address sam) refl))

contract-IsBounded : Nodes.IsBounded contract
unfolding contains ◌==◌
contract-IsBounded = record { within = omega arith; distinct = (refl, (refl, tt)) }

is_restricted_swapped_example :
    Access.is_restricted sam app (Access.restrict sam app contract).0
    ≡ Access.is_restricted sam app contract
is_restricted_swapped_example =
    Access.is_restricted_swapped sam app contract (ground (arith, eq_iff sam app))
