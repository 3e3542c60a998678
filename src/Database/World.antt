-- ===== src/Database/World.antt =====
-- What a command of database/src/prelude.rs acts on besides its arguments: the shared state, the
-- flag `INITIALIZATION_COMPLETE`, the channel to the network, and the clock.
use samaritan_db.Prelude.{ℕ, Bool, List, ◌+◌, ◌∷◌}
use samaritan_db.Text.{Text}
use samaritan_db.Dict.{Dict}
use samaritan_db.Dict
use samaritan_db.Database.State.{DbState, HashTable, TempCache}

-- The messages of the channel that the commands send; the addresses and handles that only the
-- network's side reads are left out.
pub data ChannelMsg : Type 0 where
  set_network_sync_flag : Text → ChannelMsg
  gossip_write_data : Text → Text → Text → Text → ℕ → ChannelMsg
  gossip_delete_event : Text → Text → Text → ℕ → ChannelMsg
  gossip_truncate_event : Text → Text → ℕ → ChannelMsg
  gossip_access_change : Bool → Text → Text → ℕ → ChannelMsg
  subscribe_node_to_application : Text → Text → ChannelMsg
  unsubscribe_node_from_application : Text → ChannelMsg
  change_pinning_server : Text → Text → ChannelMsg
  db_info shutdown : ChannelMsg

pub record World : Type 0 where
  pub state : DbState
  pub initialization_complete : Bool
  -- The messages sent so far, the last one first.
  pub sent : List ChannelMsg
  -- The readings of the clock, and how many have been made.
  pub clock : ℕ → ℕ
  pub readings : ℕ

-- Code that runs without interruption: the lock is free, and no other task writes in between.
abbrev pub M : Type 0 → Type 0
M A = World → A × World

infixl 5 ◌>>=◌ ◌>>◌
abbrev pub ◌>>=◌ : {A B : Type 0} → M A → (A → M B) → M B
◌>>=◌ m f w = let (a, w') = m w in f a w'

abbrev pub ◌>>◌ : {A B : Type 0} → M A → M B → M B
m >> k = m >>= λ _. k

abbrev pub pure : {A : Type 0} → A → M A
pure a w = (a, w)

-- A read of the state under its lock.
abbrev pub gets : {A : Type 0} → (DbState → A) → M A
gets f w = (f w.state, w)

abbrev pub modify : (DbState → DbState) → M (Unit {0})
modify f w = (tt, record w { state = f w.state })

abbrev pub send : ChannelMsg → M (Unit {0})
send msg w = (tt, record w { sent = msg ∷ w.sent })

-- `util::current_unix_epoch`
abbrev pub current_unix_epoch : M ℕ
current_unix_epoch w = (w.clock w.readings, record w { readings = w.readings + 1 })

abbrev pub load_flag : M Bool
load_flag w = (w.initialization_complete, w)

abbrev pub store_flag : Bool → M (Unit {0})
store_flag b w = (tt, record w { initialization_complete = b })

-- The two insertions into the state that the commands make.
abbrev pub save_application : Text → HashTable → M (Unit {0})
save_application did table =
    modify (λ s. record s { applications = Dict.insert did table s.applications })

abbrev pub save_cache : Text → TempCache → M (Unit {0})
save_cache did entries = modify (λ s. record s { cache = Dict.insert did entries s.cache })
