-- ===== src/Network.antt =====
-- database/src/network.rs, as far as it is the program's own logic: its caches and peers, the messages
-- between nodes and their handlers, the turn to upload an application's data, and the restrictions
-- that the contract asks for.
pub mod AccessChanges
pub mod Caches
pub mod State
pub mod Sync
pub mod Image
pub mod Client
pub mod Message
pub mod Receive
pub mod Channel
pub mod Heartbeat
pub mod Requests
pub mod Exchange
pub mod Invariant
