-- ===== src/Tests/Data.antt =====
-- The inputs of the tests: a node with one application, and a contract.
use samaritan_db.Prelude.{true, false, none, some, [], ◌+◌, ◌∷◌}
use samaritan_db.Text.{Text, codes}
use samaritan_db.Database.Init.{Outside}
use samaritan_db.Contract.State.{AccountInfo, DbContract}
use samaritan_db.Database.World.{World}
use samaritan_db.Database.State.{DbState, HashTableData}

abbrev pub app : Text
app = codes "app"

abbrev pub sam : Text
sam = codes "sam"

abbrev pub eve : Text
eve = codes "eve"

abbrev pub name : Text
name = codes "name"

abbrev pub old : Text
old = codes "old"

abbrev pub fresh : Text
fresh = codes "new"

-- The application's own entry, and one of a user who permits access.
abbrev pub sam_entry : HashTableData
sam_entry = record {
  did = sam;
  cid = codes "Qm";
  access = true;
  contents = (name, record { contents = old; access = true; write_time = 50 }) ∷ [];
  access_modification_time = 40;
}

abbrev pub app_entry : HashTableData
app_entry = record sam_entry { did = app }

abbrev pub node_state : DbState
node_state = record {
  applications = (app, (app, app_entry) ∷ (sam, sam_entry) ∷ []) ∷ [];
  cache = [];
  authenticated = [];
}

-- A node whose clock shows 100, 101, and so on.
abbrev pub node : World
node = record {
  state = node_state;
  initialization_complete = true;
  sent = [];
  clock = λ n. 100 + n;
  readings = 0;
}

-- The same node during an initialization.
abbrev pub starting : World
starting = record node { initialization_complete = false }

abbrev pub account : AccountInfo
account = record { did_document_uri = []; hashtable_cid = old; auth_material = codes "pw" }

abbrev pub contract : DbContract
contract = record {
  nodes = codes "n1" ∷ codes "n2" ∷ [];
  accounts = (sam, account) ∷ (app, account) ∷ [];
  subscribers = (app, codes "n1" ∷ []) ∷ [];
  restricted = (app, eve ∷ sam ∷ []) ∷ [];
}

-- An outside that knows no link, stores everything and lets every node join.
abbrev pub generous : Outside
generous = record {
  get_app_ht_cid = λ did auth. 0 ∷ [];
  fetch_from_ipfs = λ cid. none;
  write_to_ipfs = λ m. some (codes "Qm");
  hashtable_from_str = λ s. some ((app, record { cid = codes "Qm"; access = true }) ∷ []);
  data_map_from_str = λ s. none;
  hash_string = λ s. s;
  generate_auth_material = λ s. s;
  reply = λ msg. true;
}

-- A node with an application that is named as the commands want it, and its password.
abbrev pub shop : Text
shop = codes "did:sam:apps:shop"

abbrev pub shop_node : World
shop_node = record node {
  state = record {
    applications = (shop, (shop, app_entry) ∷ []) ∷ [];
    cache = [];
    authenticated = (shop, codes "pw") ∷ [];
  };
}
