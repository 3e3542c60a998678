-- ===== src/Network/Invariant/Reach.antt =====
-- A node with its network, in any order of steps.
use samaritan_db.Prelude.{
  ℕ, inl, inr, false, arith, Bool-cases, Option-cases, unwrap_or, is_empty, [], ◌≡◌, ◌∷◌,
}
use samaritan_db.Text.{Text, ◌==◌}
use samaritan_db.Dict.{Dict, IsMap, Every}
use samaritan_db.Dict
use samaritan_db.Network.Invariant.Messages.{receive_message-IsSane}
use samaritan_db.Network.Invariant.Channel.{handle_channel-IsSane}
use samaritan_db.Network.Invariant.Requests.{on_request-IsSane, on_response-IsSane}
use samaritan_db.Network.State.{Rpc, Libp2p, IpfsManager}
use samaritan_db.Network.Image.{upload_entries, app_table, Ipfs, update_data_image, upload_entry}
use samaritan_db.Network.Invariant.{IsSane}
use samaritan_db.Network.Client.{Client}
use samaritan_db.Network.Channel.{Surroundings, handle_channel}
use samaritan_db.Network.Requests.{on_request, on_response}
use samaritan_db.Network.Receive.{receive_message}
use samaritan_db.Network.Caches.{new_cache}
use samaritan_db.Database.Invariant.Loads.{GivesMaps}
use samaritan_db.Database.World.{World, ChannelMsg}
use samaritan_db.Database.State.{HashTableData, HashTable, new_state, DbState}
use samaritan_db.Database.Init.{Outside}
use samaritan_db.Database.Invariant.{
  IsTable, unwrap_or-IsTable, insert-IsTable, IsWellFormed, saved-IsWellFormed,
}
use samaritan_db.Node

module _ (ipfs : Ipfs) (did : Text) (m : IpfsManager) where
  upload_entry-IsWellFormed :
      (t : HashTable) (owner : Text) (e : HashTableData) (s : DbState)
      → IsTable t
      → IsMap e.contents
      → IsWellFormed s
      → IsWellFormed (upload_entry ipfs did m t owner e s).0
  unfolding upload_entry
  upload_entry-IsWellFormed t owner e s h k w = elim (Bool-cases (is_empty e.contents)) [
    | inl bare ↦ rw bare w
    | inr full ↦ elim (Option-cases (ipfs.write_data e.contents)) [
      | inl lost ↦ rw (full, lost) w
      | inr (cid, there) ↦ elim (Bool-cases (cid == e.cid)) [
        | inl same ↦ rw (full, there, same) w
        | inr changed ↦
            rw (full, there, changed)
              (saved-IsWellFormed did (Dict.insert owner (record e { cid = cid }) t) s
                (insert-IsTable owner (record e { cid = cid }) t k h) w)
      ]
    ]
  ]

  upload_entries-IsWellFormed :
      (t es : HashTable) (s : DbState)
      → IsTable t
      → Every (λ e. IsMap e.contents) es
      → IsWellFormed s
      → IsWellFormed (upload_entries ipfs did m t es s).0
  unfolding upload_entries
  upload_entries-IsWellFormed t [] s h k w = w
  upload_entries-IsWellFormed t ((owner, e) ∷ es) s h k w =
      upload_entries-IsWellFormed t es (upload_entry ipfs did m t owner e s).0 h k.1
        (upload_entry-IsWellFormed t owner e s h k.0 w)

update_data_image-IsWellFormed :
    (ipfs : Ipfs) (did : Text) (s : DbState) (m : IpfsManager)
    → IsWellFormed s
    → IsWellFormed (update_data_image ipfs did s m).0
unfolding update_data_image
update_data_image-IsWellFormed ipfs did s m w =
    let table : IsTable (app_table did s) = unwrap_or-IsTable did s w in
    elim (Bool-cases (unwrap_or (Dict.lookup did m.modified) false)) [
      | inl changed ↦ rw changed (
          upload_entries-IsWellFormed ipfs did m (app_table did s) (app_table did s) s table table.1
            w)
      | inr kept ↦ rw kept w
    ]

-- One step: a gossiped message, a request or a response of a peer, a message of the database's own
-- commands, an upload, or a step of the database by itself.
pub data Step (out : Outside) (c : Client) : Client → Type 0 where
  receives :
      (net : Libp2p) (sender message_id bytes : Text) {c' : Client}
      → c' ≡ (receive_message net sender message_id bytes c).1
      → Step out c c'
  is_asked :
      (net : Libp2p) (now : ℕ) (rpc : Rpc) {c' : Client}
      → c' ≡ (on_request net now rpc c).1
      → Step out c c'
  is_answered :
      (net : Libp2p) (rpc : Rpc) {c' : Client} → c' ≡ (on_response net rpc c).1 → Step out c c'
  is_told :
      (around : Surroundings) (m : ChannelMsg) {c' : Client}
      → c' ≡ handle_channel around m c
      → Step out c c'
  uploads :
      (ipfs : Ipfs) (did : Text) {c' : Client}
      → c' ≡ record c {
        world = record c.world { state = (update_data_image ipfs did c.world.state c.ipfs).0 };
        ipfs = (update_data_image ipfs did c.world.state c.ipfs).1.0;
      }
      → Step out c c'
  works :
      (w' : World) {c' : Client}
      → Node.Step out c.world w'
      → c' ≡ record c { world = w' }
      → Step out c c'

-- What a node passes through from its start.
pub data Reach (out : Outside) : Client → Type 0 where
  at_start :
      {c : Client}
      → c.world.state ≡ new_state
      → c.seen_msgs ≡ []
      → c.msg_cache ≡ new_cache
      → Reach out c
  goes_on : {c c' : Client} → Reach out c → Step out c c' → Reach out c'

module _ (out : Outside) (gives : GivesMaps out) where
  Step-IsSane : {c c' : Client} → Step out c c' → IsSane c → IsSane c'
  Step-IsSane {c} (receives net sender message_id bytes e) h =
      rw e (receive_message-IsSane net sender message_id bytes c h)
  Step-IsSane {c} (is_asked net now rpc e) h = rw e (on_request-IsSane net now rpc c h)
  Step-IsSane {c} (is_answered net rpc e) h = rw e (on_response-IsSane net rpc c h)
  Step-IsSane {c} (is_told around m e) h = rw e (handle_channel-IsSane around m c h)
  Step-IsSane {c} (uploads ipfs did e) h = rw e (record {
    state = update_data_image-IsWellFormed ipfs did c.world.state c.ipfs h.state;
    seen = h.seen;
    window = h.window;
  })
  Step-IsSane {c} (works w' s e) h = rw e (record {
    state = Node.Step-IsWellFormed out gives s h.state;
    seen = h.seen;
    window = h.window;
  })

  -- Whatever messages, requests and responses of peers a node has handled since its start, with bytes
  -- of any kind, whatever its own commands and clients have asked of it, and whatever it has uploaded,
  -- in any order: no map of its database lists a key twice, and its lists of the ids that it has seen
  -- and that it offers have at most 890 entries. (The maps that the JSON library reads list no key
  -- twice.)
  pub Reach-IsSane : {c : Client} → Reach out c → IsSane c
  Reach-IsSane (at_start {c} w s m) = record {
    state = rw w Node.new_state-IsWellFormed;
    seen = rw s (omega arith);
    window = rw m (omega arith);
  }
  Reach-IsSane (goes_on r s) = Step-IsSane s (Reach-IsSane r)
