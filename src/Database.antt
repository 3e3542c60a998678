-- ===== src/Database.antt =====
-- The node's database, database/src/prelude.rs: its data, and the commands on it.
pub mod Reply
pub mod State
pub mod DataMap
pub mod World
pub mod View
pub mod Set
pub mod Get
pub mod Del
pub mod Keys
pub mod Access
pub mod ReadWrite
pub mod Gossip
pub mod Flush
pub mod Init
pub mod Invariant
