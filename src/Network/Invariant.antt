-- ===== src/Network/Invariant.antt =====
-- What holds of a node's database and of its caches whatever the network brings.
pub mod Messages
pub mod Requests
pub mod Channel
pub mod Reach
use samaritan_db.Prelude.{
  sym, length-drop, ℕ, refl, inl, inr, false, List, map, arith, ltb, leb, Bool-cases, Option-cases,
  unwrap_or, length, drop, length-append, [], subst, ◌≤◌, ◌≡◌, ◌∷◌, ◌++◌,
}
use samaritan_db.Text.{Text}
use samaritan_db.Network.State.{i_give, Rpc, GossipPeer, i_have}
use samaritan_db.Network.Client.Retries.{publish_loop_ends}
use samaritan_db.Network.Client.{
  Client, emit_all, gossip_msg, emit, publish_msg, Outgoing, publish, peers_of, requested_of,
  rpc_of, request_all,
}
use samaritan_db.Network.Message.{get_elem?}
use samaritan_db.Network.Receive.{Handler, with_field, pass_on}
use samaritan_db.Network.Caches.{
  shift, mcache_len, MessageCache, put, add_data, SeenMsgs, get_gossip_ids,
}
use samaritan_db.Database.Invariant.{IsWellFormed}

-- No map of the database lists a key twice, and the lists of ids keep their bound.
pub record IsSane (c : Client) : Type 0 where
  pub state : IsWellFormed c.world.state
  pub seen : length c.seen_msgs ≤ mcache_len
  pub window : length c.msg_cache.current_window ≤ mcache_len

-- The three parts, for a client that shares them.
pub shared :
    {c c' : Client}
    → IsSane c
    → c'.world ≡ c.world
    → c'.seen_msgs ≡ c.seen_msgs
    → c'.msg_cache ≡ c.msg_cache
    → IsSane c'
shared h w s m = record {
  state = subst (λ w. IsWellFormed w.state) (sym w) h.state;
  seen = subst (λ s. length s ≤ mcache_len) (sym s) h.seen;
  window = subst (λ m. length m.current_window ≤ mcache_len) (sym m) h.window;
}

pub emit_all-IsSane : (os : List Outgoing) (c : Client) → IsSane c → IsSane (emit_all os c)
unfolding emit_all
emit_all-IsSane [] c h = h
emit_all-IsSane (o ∷ os) c h = emit_all-IsSane os (emit o c) (shared h refl refl refl)

publish-IsSane : (did message : Text) (c : Client) → IsSane c → IsSane (publish did message c)
publish-IsSane did message c h =
    let (c', ends, same) = publish_loop_ends 0 did message c in
    subst (λ r. IsSane (unwrap_or r c)) (sym ends)
      (subst IsSane (sym same) (shared h refl refl refl))

request_all-IsSane :
    (rpc : Rpc) (peers : List GossipPeer) (c : Client) → IsSane c → IsSane (request_all rpc peers c)
request_all-IsSane rpc peers c h = emit_all-IsSane (map (λ p. requested_of p.peer_id rpc) peers) c h

pub publish_msg-IsSane :
    (message did : Text) (c : Client) → IsSane c → IsSane (publish_msg message did c)
unfolding publish_msg
publish_msg-IsSane message did c h =
    request_all-IsSane (rpc_of c (i_give (message ∷ []))) (peers_of did c.gossipsub.metadata_peers)
      (publish did message c) (publish-IsSane did message c h)

pub gossip_msg-IsSane :
    (message did message_id : Text) (c : Client)
    → IsSane c
    → IsSane (gossip_msg message did message_id c)
unfolding gossip_msg
gossip_msg-IsSane message did message_id c h =
    request_all-IsSane
      (rpc_of c
        (i_have did (message_id ∷ get_gossip_ids did c.gossipsub.config.mcache_gossip c.msg_cache)))
      (peers_of did c.gossipsub.metadata_peers) (publish did message c)
      (publish-IsSane did message c h)

pub add_data-le :
    (id : Text) (s : SeenMsgs) → length s ≤ mcache_len → length (add_data id s) ≤ mcache_len
unfolding add_data
add_data-le id s h = elim (Bool-cases (leb mcache_len (length s))) [
  | inl full ↦ rw full (ground (arith, length-append (drop 1 s) (id ∷ []), length-drop 1 s))
  | inr room ↦ rw room (ground (arith, length-append s (id ∷ [])))
]

pub put-le :
    (topic id bytes : Text) (m : MessageCache)
    → length m.current_window ≤ mcache_len
    → length (put topic id bytes m).current_window ≤ mcache_len
unfolding put
put-le topic id bytes m h =
    elim (Bool-cases (ltb mcache_len (length (m.current_window ++ id ∷ [])))) [
      | inl over ↦ rw over (
          ground (
            arith,
            length-append m.current_window (id ∷ []),
            length-drop 1 (m.current_window ++ id ∷ []),
          ))
      | inr under ↦ rw under (ground arith)
    ]

pub shift-le :
    (m : MessageCache)
    → length m.current_window ≤ mcache_len
    → length (shift m).current_window ≤ mcache_len
unfolding shift
shift-le m h = let low : ltb mcache_len (length m.current_window) ≡ false = ground arith in rw low h

-- The end of a handler that has passed a message on.
pub shifted-IsSane : (c : Client) → IsSane c → IsSane (record c { msg_cache = shift c.msg_cache })
shifted-IsSane c h = record {
  state = h.state;
  seen = h.seen;
  window = shift-le c.msg_cache h.window;
}

pub pass_on-IsSane :
    (did message_id bytes : Text) (c : Client) → IsSane c → IsSane (pass_on did message_id bytes c)
unfolding pass_on
pass_on-IsSane did message_id bytes c h = shifted-IsSane (gossip_msg bytes did message_id seen) (
    gossip_msg-IsSane bytes did message_id seen (record {
      state = h.state;
      seen = add_data-le message_id c.seen_msgs h.seen;
      window = put-le did message_id bytes c.msg_cache h.window;
    }))
  where
    seen : Client
    seen = record c {
      seen_msgs = add_data message_id c.seen_msgs;
      msg_cache = put did message_id bytes c.msg_cache;
    }

-- A use of a field keeps what its continuation keeps.
pub with_field-IsSane :
    (i : ℕ) (l : List Text) (k : Text → Handler) (c : Client)
    → IsSane c
    → ((x : Text) → IsSane (k x c).1)
    → IsSane (with_field i l k c).1
unfolding with_field
with_field-IsSane i l k c h f = elim (Option-cases (get_elem? i l)) [
  | inl missing ↦ rw (with_field, missing) h
  | inr (x, there) ↦ rw (with_field, there) (f x)
]
