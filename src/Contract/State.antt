-- ===== src/Contract/State.antt =====
-- The storage and the events of database/contract/lib.rs. An ink! `Mapping` is a dictionary.
use samaritan_db.Prelude.{List, []}
use samaritan_db.Text.{Text, codes}
use samaritan_db.Dict.{Dict}

pub record AccountInfo : Type 0 where
  pub did_document_uri : Text
  pub hashtable_cid : Text
  pub auth_material : Text

pub record DbContract : Type 0 where
  pub nodes : List Text
  pub accounts : Dict AccountInfo
  pub subscribers : Dict (List Text)
  pub restricted : Dict (List Text)

pub data Event : Type 0 where
  account_created : Text → Event
  boot_node_added boot_node_removed : Text → Event
  hash_table_address_updated : Text → Text → Event
  entry_not_found : Text → Event
  topic_subscription_complete topic_unsubscription_complete : Text → Text → Event
  restrict_application_access unrestrict_application_access : Text → Text → Event

-- What a message that writes leaves: the storage, and the events that it emits in order.
abbrev pub Outcome : Type 0
Outcome = DbContract × List Event

-- `DbContract::new`
unfoldable pub new : DbContract
new = record { nodes = []; accounts = []; subscribers = []; restricted = [] }

-- The separator of the lists that the contract returns.
abbrev pub separator : Text
separator = codes "$$$"
