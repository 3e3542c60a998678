-- ===== src/ContractCalls.antt =====
-- The calls of the contract: database/src/contract.rs and the functions of database/src/cli.rs behind
-- it, each of which runs `cargo contract` until it starts.
pub mod Retry
pub mod Permission
use samaritan_db.Prelude.{
  ℕ, zero, suc, Bool, Option, none, some, List, is_empty, [], ◌+◌, ◌∷◌, ◌++◌, if◌then◌else◌,
}
use samaritan_db.Text.{Text, codes}
use samaritan_db.Util.ReturnData.{parse_contract_return_data}

-- `DBConfig` of database/src/prelude.rs.
pub record DbConfig : Type 0 where
  pub protobuf_keypair : Text
  pub tcp_port : ℕ
  pub chain_keys : Text
  pub contract_address : Text
  pub server_address_port : ℕ

abbrev pub new_config : DbConfig
new_config = record {
  protobuf_keypair = [];
  tcp_port = 1509;
  chain_keys = [];
  contract_address = [];
  server_address_port = 0;
}

abbrev pub contract_url : Text
contract_url = codes "wss://rococo-contracts-rpc.polkadot.io"

-- What the commands share; a query is a dry run.
unfoldable pub cargo_contract : DbConfig → Text → List Text → Bool → List Text
cargo_contract cfg message args dry_run =
    codes "contract"
    ∷ codes "call"
    ∷ codes "--contract"
    ∷ cfg.contract_address
    ∷ codes "--message"
    ∷ message
    ∷ ((if is_empty args then [] else codes "--args" ∷ args)
        ++ codes "--suri"
          ∷ cfg.chain_keys
          ∷ codes "--url"
          ∷ contract_url
          ∷ (if dry_run then codes "--dry-run" ∷ [] else []))

-- A message and its arguments.
abbrev pub ContractCall : Type 0
ContractCall = Text × List Text

-- `hex::encode` is outside.
module _ (encode : Text → Text) where
  abbrev pub str_to_hex : Text → Text
  str_to_hex data_text = codes "0x" ++ encode data_text

  abbrev pub get_node_addresses : ContractCall
  get_node_addresses = (codes "get_node_addresses", [])

  abbrev pub add_boot_node : Text → ContractCall
  add_boot_node addr = (codes "add_address", str_to_hex addr ∷ [])

  abbrev pub remove_boot_node : Text → ContractCall
  remove_boot_node addr = (codes "remove_address", str_to_hex addr ∷ [])

  abbrev pub get_application_ht_cid : Text → Text → ContractCall
  get_application_ht_cid did auth = (codes "get_account_ht_cid", str_to_hex did ∷ auth ∷ [])

  abbrev pub get_subscribers : Text → ContractCall
  get_subscribers did = (codes "get_subscribers", str_to_hex did ∷ [])

  abbrev pub subscribe_node : Text → Text → ContractCall
  subscribe_node did addr = (codes "subscribe_node", str_to_hex did ∷ str_to_hex addr ∷ [])

  abbrev pub unsubscribe_node : Text → Text → ContractCall
  unsubscribe_node did addr = (codes "unsubscribe_node", str_to_hex did ∷ str_to_hex addr ∷ [])

  abbrev pub update_ht_cid : Text → Text → ContractCall
  update_ht_cid did cid = (codes "update_account_ht_cid", str_to_hex did ∷ str_to_hex cid ∷ [])

  abbrev pub restrict_application : Text → Text → ContractCall
  restrict_application did owner_did =
      (codes "restrict", str_to_hex did ∷ str_to_hex owner_did ∷ [])

  abbrev pub unrestrict_application : Text → Text → ContractCall
  unrestrict_application did owner_did =
      (codes "unrestrict", str_to_hex did ∷ str_to_hex owner_did ∷ [])

  abbrev pub get_application_access_blockers : Text → ContractCall
  get_application_access_blockers did = (codes "get_restriction_list", str_to_hex did ∷ [])

  -- `contract::modify_app_access`
  unfoldable pub modify_access_call : Text → Text → Bool → ContractCall
  modify_access_call did owner_did perm =
      if perm then restrict_application did owner_did else unrestrict_application did owner_did

-- The loop of each function, on fuel: the outcome of an attempt is the program's output, if it starts.
-- The result is the output and the number of the attempt.
unfoldable pub retry : ℕ → (ℕ → Option Text) → ℕ → Option (Text × ℕ)
retry zero attempt n = none
retry (suc f) attempt n =
    let more = retry f attempt (n + 1) in
    elim (attempt n) [ some output ↦ some (output, n) | none ↦ more ]

-- A query reads what is printed; `lossy` is `String::from_utf8_lossy`.
unfoldable pub query : (Text → Text) → ℕ → (ℕ → Option Text) → Option Text
unfolding retry parse_contract_return_data
query lossy f attempt = elim (retry f attempt 0) [
  | some r ↦ some (parse_contract_return_data (lossy r.0))
  | none ↦ none
]
