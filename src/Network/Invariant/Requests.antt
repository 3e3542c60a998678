-- ===== src/Network/Invariant/Requests.antt =====
-- The handlers of requests and responses keep the database and the caches sane.
use samaritan_db.Dict
use samaritan_db.Text.Number.{parse_uint, u8_limit}
use samaritan_db.Text.Utf8.{from_utf8}
use samaritan_db.Text.Split.{split}
use samaritan_db.Network.Invariant.Messages.{apply_config-IsSane, apply_data-IsSane}
use samaritan_db.Network.State.{
  SerializedGossipPeer, i_want, sync, i_give, Rpc, ControlAction, i_have, deserialize, graft,
  Libp2p, prune,
}
use samaritan_db.Network.Invariant.{with_field-IsSane, IsSane, shared}
use samaritan_db.Network.Client.{Client}
use samaritan_db.Network.Requests.{
  on_response, on_i_want, on_graft, on_request, on_given, apply_given, take_given, on_i_give,
  on_i_have, answers,
}
use samaritan_db.Network.Message.{
  field_separator, config_msg, GossipMsgType, unsubscribe_msg, subscribe_msg, unknown_msg,
  gossip_msg_type, data_msg,
}
use samaritan_db.Network.Receive.{set_modified}
use samaritan_db.Database.Gossip.{Ended, finished, panicked}
use samaritan_db.Prelude.{
  ℕ, refl, inl, inr, List, Bool-cases, Option-cases, unwrap_or, is_empty, [], ◌∷◌,
}
use samaritan_db.Text.{Text}
use samaritan_db.Dict.{Dict}

on_graft-IsSane :
    (net : Libp2p) (topic : Text) (peer : SerializedGossipPeer) (c : Client)
    → IsSane c
    → IsSane (on_graft net topic peer c)
unfolding on_graft
on_graft-IsSane net topic peer c h =
    elim (Option-cases (Dict.lookup topic c.gossipsub.mesh_peers)) [
      | inl e ↦ rw (on_graft, e) h
      | inr (peers, e) ↦ elim (Option-cases (deserialize net peer)) [
        | inl e' ↦ rw (on_graft, e, e') h
        | inr (p, e') ↦ rw (on_graft, e, e') (shared h refl refl refl)
      ]
    ]

apply_given-IsSane :
    (k : GossipMsgType) (did : Text) (l : List Text) (c : Client)
    → IsSane c
    → IsSane (apply_given k did l c).1
unfolding apply_given
apply_given-IsSane data_msg did l c h =
    apply_data-IsSane did l (set_modified did c) (shared h refl refl refl)
apply_given-IsSane config_msg did l c h = apply_config-IsSane did l (λ d. d) c (λ d g. g) h
apply_given-IsSane subscribe_msg did l c h = h
apply_given-IsSane unsubscribe_msg did l c h = h
apply_given-IsSane unknown_msg did l c h = h

take_given-IsSane : (l : List Text) (c : Client) → IsSane c → IsSane (take_given l c).1
unfolding take_given
take_given-IsSane l c h = with_field-IsSane 1 l _ c h λ did.
    with_field-IsSane 0 l _ c h λ code.
      apply_given-IsSane (gossip_msg_type (unwrap_or (parse_uint u8_limit code) 0)) did l c h

on_given-IsSane : (bytes : Text) (c : Client) → IsSane c → IsSane (on_given bytes c).1
unfolding on_given
on_given-IsSane bytes c h = elim (Option-cases (from_utf8 bytes)) [
  | inl e ↦ rw (on_given, e) h
  | inr (text, e) ↦ rw (on_given, e) (take_given-IsSane (split field_separator text) c h)
]

-- The rest of the messages, after one.
rest-IsSane :
    (r more : Ended × Client)
    → IsSane r.1
    → IsSane more.1
    → IsSane (elim r.0 as (λ _. Ended × Client) [ finished ↦ more | panicked ↦ (panicked, r.1) ]).1
rest-IsSane (finished, c) more h g = g
rest-IsSane (panicked, c) more h g = h

on_i_give-IsSane : (messages : List Text) (c : Client) → IsSane c → IsSane (on_i_give messages c).1
unfolding on_i_give
on_i_give-IsSane [] c h = h
on_i_give-IsSane (bytes ∷ messages) c h =
    rest-IsSane (on_given bytes c) (on_i_give messages (on_given bytes c).1)
      (on_given-IsSane bytes c h)
      (on_i_give-IsSane messages (on_given bytes c).1 (on_given-IsSane bytes c h))

pub on_request-IsSane :
    (net : Libp2p) (now : ℕ) (rpc : Rpc) (c : Client)
    → IsSane c
    → IsSane (on_request net now rpc c).1
on_request-IsSane net now rpc c h = request rpc.messages rpc.control_msgs
  where
    request :
        (ms : List Text) (as' : List ControlAction)
        → IsSane (on_request net now (record { messages = ms; control_msgs = as' }) c).1
    request ms [] = unfold on_request in h
    request [] (i_have topic ids ∷ rest) = unfold on_request in h
    request (m ∷ ms) (i_have topic ids ∷ rest) =
        unfold on_request on_i_have in shared h refl refl refl
    request ms (i_want topic ids ∷ rest) = unfold on_request in h
    request ms (graft topic peer ∷ rest) = unfold on_request in on_graft-IsSane net topic peer c h
    request [] (prune topic peers ∷ rest) = unfold on_request in h
    request (m ∷ ms) (prune topic peers ∷ rest) = unfold on_request in h
    request ms (i_give messages ∷ rest) = unfold on_request in on_i_give-IsSane messages c h
    request ms (sync n topic peers ∷ rest) = unfold on_request in shared h refl refl refl

on_i_want-IsSane :
    (net : Libp2p) (topic : Text) (ids : List Text) (asker : Text) (c : Client)
    → IsSane c
    → IsSane (on_i_want net topic ids asker c)
unfolding on_i_want
on_i_want-IsSane net topic ids asker c h =
    elim (Option-cases (Dict.lookup topic c.msg_cache.topic_data)) [
      | inl e ↦ rw (on_i_want, e) h
      | inr (m, e) ↦ elim (Bool-cases (is_empty (answers ids m))) [
        | inl bare ↦ rw (on_i_want, e, bare) h
        | inr full ↦ elim (Option-cases (net.peer_of_bytes asker)) [
          | inl e' ↦ rw (on_i_want, e, full, e') h
          | inr (p, e') ↦ rw (on_i_want, e, full, e') (shared h refl refl refl)
        ]
      ]
    ]

pub on_response-IsSane :
    (net : Libp2p) (rpc : Rpc) (c : Client) → IsSane c → IsSane (on_response net rpc c).1
on_response-IsSane net rpc c h = response rpc.messages rpc.control_msgs
  where
    response :
        (ms : List Text) (as' : List ControlAction)
        → IsSane (on_response net (record { messages = ms; control_msgs = as' }) c).1
    response ms [] = unfold on_response in h
    response ms (i_have topic ids ∷ rest) = unfold on_response in h
    response [] (i_want topic ids ∷ rest) = unfold on_response in h
    response (m ∷ ms) (i_want topic ids ∷ rest) =
        unfold on_response in on_i_want-IsSane net topic ids m c h
    response ms (graft topic peer ∷ rest) = unfold on_response in h
    response ms (prune topic peers ∷ rest) = unfold on_response in h
    response ms (i_give messages ∷ rest) = unfold on_response in h
    response ms (sync n topic peers ∷ rest) = unfold on_response in h
