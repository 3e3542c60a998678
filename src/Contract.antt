-- ===== src/Contract.antt =====
-- The ink! contract of database/contract/lib.rs: the storage in `State`, its messages by the part
-- of the storage that they use.
pub mod State
pub mod Nodes
pub mod Accounts
pub mod Subscribers
pub mod Access
pub mod Messages
