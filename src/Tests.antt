-- ===== src/Tests.antt =====
-- Tests: runs of the definitions at concrete inputs, and each theorem at such an input.
mod Commands
mod Data
mod Database
mod Gossip
mod Contract
mod Texts
mod Server
mod Node
mod Network
mod Replication
mod Sync
mod Peers
mod Calls
