-- ===== src/Network/Message.antt =====
-- The texts of the gossiped messages of database/src/network.rs, and the reading of their fields.
pub mod Fields
use samaritan_db.Prelude.{
  ℕ, zero, suc, Bool, true, false, Option, none, some, List, num_eq, [], ◌∷◌, if◌then◌else◌,
}
use samaritan_db.Text.{Text, codes}
use samaritan_db.Text.Decimal.{show_uint}
use samaritan_db.Text.Split.{join}
use samaritan_db.Database.Gossip.{WriteDataType}

-- `GossipMsgType`
pub data GossipMsgType : Type 0 where
  data_msg config_msg subscribe_msg unsubscribe_msg unknown_msg : GossipMsgType

-- The number of a kind, by its place in the enumeration.
unfoldable pub msg_code : GossipMsgType → ℕ
msg_code data_msg = 0
msg_code config_msg = 1
msg_code subscribe_msg = 2
msg_code unsubscribe_msg = 3
msg_code unknown_msg = 4

unfoldable pub write_code : WriteDataType → ℕ
write_code WriteDataType.access = 0
write_code WriteDataType.delete = 1
write_code WriteDataType.truncate = 2
write_code WriteDataType.write = 3
write_code WriteDataType.unknown = 4

-- The kind that a receiver reads.
unfoldable pub gossip_msg_type : ℕ → GossipMsgType
gossip_msg_type n =
    if num_eq n 0
    then data_msg
    else (if num_eq n 1
        then config_msg
        else (if num_eq n 2
            then subscribe_msg
            else (if num_eq n 3 then unsubscribe_msg else unknown_msg)))

abbrev pub field_separator : Text
field_separator = codes "$$"

abbrev pub show_bool : Bool → Text
show_bool true = codes "true"
show_bool false = codes "false"

-- The nine fields of a message about data.
unfoldable pub data_fields : Text → Text → Text → Text → ℕ → Text → Text → WriteDataType → List Text
data_fields did key value owner_did write_time multi_addr peer_id kind =
    show_uint (msg_code data_msg)
    ∷ did
    ∷ key
    ∷ value
    ∷ owner_did
    ∷ show_uint write_time
    ∷ multi_addr
    ∷ peer_id
    ∷ show_uint (write_code kind)
    ∷ []

unfoldable pub data_message : Text → Text → Text → Text → ℕ → Text → Text → WriteDataType → Text
unfolding data_fields
data_message did key value owner_did write_time multi_addr peer_id kind =
    join field_separator (data_fields did key value owner_did write_time multi_addr peer_id kind)

unfoldable pub config_message : Text → Text → ℕ → Text → Text
config_message did url now peer_id = join field_separator (
    show_uint (msg_code config_msg)
    ∷ did
    ∷ url
    ∷ []
    ∷ []
    ∷ show_uint now
    ∷ []
    ∷ peer_id
    ∷ show_uint 0
    ∷ [])

-- The message of a node that subscribes or leaves.
unfoldable pub membership_message : GossipMsgType → Text → Text → Text → Text
membership_message kind did multi_addr peer_id =
    join field_separator (show_uint (msg_code kind) ∷ did ∷ multi_addr ∷ peer_id ∷ [])

-- `msg_data[i]`, where `none` stands for the panic.
unfoldable pub get_elem? : ℕ → List Text → Option Text
get_elem? i [] = none
get_elem? zero (x ∷ xs) = some x
get_elem? (suc i) (x ∷ xs) = get_elem? i xs
