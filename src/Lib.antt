-- ===== src/Lib.antt =====
-- SamaritanDB: a decentralized data store (database/) and the ink! contract that its nodes share
-- (database/contract/).
--
-- The parts, and where they are modelled:
-- - Prelude, Text, Dict: shared vocabulary. A Rust String or Vec<u8> is the list of its bytes (Text);
--   a HashMap is an association list whose order is the order of iteration, which is open (Dict).
--   Text/Split is str::split and join, Text/Words split_ascii_whitespace, Text/Number parse into an
--   unsigned integer, Text/Utf8 String::from_utf8.
-- - Contract: database/contract/lib.rs. State has the storage and the events, Nodes, Accounts,
--   Subscribers and Access the messages, named as in the source; Messages joins those that write in
--   one step relation.
-- - Util: database/src/util.rs, the readers of separated lists (Texts) and of what cargo contract
--   prints (ReturnData). Wire joins them with the lists that the contract returns.
-- - Database: database/src/prelude.rs. State has its data types and their methods, DataMap the
--   methods of DataMap, Reply the errors and the JSON replies of util.rs. World is what a command acts
--   on: the state behind the lock, the flag INITIALIZATION_COMPLETE, the messages sent to the network,
--   and the clock as a sequence of readings. Set, Get, Del, Keys and Access are the commands
--   set_db_value, get_db_value and check_db_key_existence, del_db_value and truncate_db_keys,
--   get_db_keys, and manage_db_access; Gossip is handle_gossiped_data; Flush is flush_cache; Init is
--   init_application, localize_application_data and forget_application. View is the abstract view that
--   their effects are stated in: an entry for each application and owner, a unit for each key, without
--   order. A command is a function from a world to its result and the next world; it runs without
--   interruption, so that nothing is said of what other tasks do between its reads and its writes, but
--   for set_db_value: Set/Overlap cuts it where it holds no lock, and Set/Lost runs two calls at once.
-- - Command: Command::parse of database/src/prelude.rs (Parse), pckg_raw_cmd of database/src/cli.rs
--   (Raw), and Command::execute of database/src/prelude.rs (Execute).
-- - Server: database/src/server.rs, handle_client_req. A JSON text is the value that it prints.
-- - Network: database/src/network.rs. State has the types of peers, IPFSManager and the messages of
--   request and response; Caches has SeenMsgs and MessageCache; Client is what the handlers of
--   NetworkClient::run act on, with publish_msg and gossip_msg; Message has the texts of the gossiped
--   messages. Receive is the handler of a gossiped message, Requests those of requests and responses,
--   Channel those of the messages that the database's commands send, Exchange those of the messages that
--   the network's own tasks send, and the pings. Heartbeat is handle_gossip_heartbeat; Sync is the turn
--   to upload an application's data (manage_data_synchronization, monitor_synching and the messages about
--   it); Image is update_data_image; AccessChanges has one round of manage_data_access_changes. A PeerId
--   and a Multiaddr stand as their texts, and an instant as a number of seconds. A handler is a function
--   from a client to the next one, with a mark if it panics. Network/Invariant joins the handlers with
--   the steps of Node.
-- - ContractCalls: database/src/contract.rs and the calls of the contract in database/src/cli.rs: their
--   arguments, the retries, and the reading of what is printed.
-- - Main: the loop of database/src/main.rs over the operator's lines (Lines, and Reached for the steps of
--   Node that it takes).
-- - Node: the steps of a whole node in any order. Database/Invariant has what each operation needs for
--   the invariant on the state.
-- - Tests: runs at concrete inputs, and each theorem at one.
--
-- How they interact: a typed or received command is read by Command, runs as a function of Database on
-- the world, and leaves messages for the network, which Network/Channel turns into gossiped texts. The
-- text reaches Network/Receive at another node, which hands its fields to Gossip. Init and Sync ask the
-- contract by way of an outside program (ContractCalls), whose print is read by Util.
--
-- Fuel: split_from takes fuel one above the length of its text, and split_from-fuel says that more
-- changes nothing; trim_start takes as many steps as there are bytes, and each takes two off. show_uint
-- takes fuel one above its number. The publication of a message takes two turns, the number of its
-- retries, and publish_loop_ends says that they are enough. A call of the contract is retried without
-- end in the code; query_ends says that fuel above the number of failures is enough.
--
-- Numbers: times and counters are natural numbers; parse refuses what leaves its type, u8 or u64 (also
-- for usize). Seconds since the epoch do not reach the bound of u64. The subtractions of the heartbeat on
-- usize panic or wrap, by the build; the count of failed pings, a u8, wraps.
--
-- Parameters (Database/Init, record Outside): what the contract, IPFS with its decryption, the JSON and
-- hash libraries, and the network's replies answer. The clock is a function from the number of a
-- reading to its value. Network/State, record Libp2p: how libp2p reads ids and addresses.
-- Network/Channel, record Surroundings: the node's address, the contract's subscribers, the shuffle, and
-- whether topics are entered and left. Network/Client: whether each publication succeeds. Network/Image,
-- record Ipfs: the content ids that an upload gets. ContractCalls: the encoding of arguments and the
-- outcome of each attempt; Permission assumes of the contract that it takes arguments in their order.
--
-- Not modelled: printing and logging, and with it what the operator sees, the set-up of the node, of
-- the web server and of libp2p (setup_peer, the bootstrap and its counting of peers), encryption and
-- hashing, and the calls of ipfs. Waits and the interleaving of tasks at their locks are left out, but
-- for the two halves of set_db_value and the lock that the heartbeat holds.
pub mod Prelude
pub mod Text
pub mod Dict
pub mod Contract
pub mod Util
pub mod Wire
pub mod Database
pub mod Command
pub mod Server
pub mod Node
pub mod Main
pub mod ContractCalls
pub mod Network
mod Tests
