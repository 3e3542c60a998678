-- ===== src/Network/Invariant/Messages.antt =====
-- The handler of gossiped messages keeps the database and the caches sane.
use samaritan_db.Prelude.{
  ℕ, refl, inl, inr, not, List, ltb, num_eq, Bool-cases, Option-cases, unwrap_or, [], ◌&&◌,
}
use samaritan_db.Text.{contains, Text, ◌==◌}
use samaritan_db.Dict.{Dict}
use samaritan_db.Dict
use samaritan_db.Text.Number.{parse_uint, u8_limit, u64_limit}
use samaritan_db.Text.Utf8.{from_utf8}
use samaritan_db.Text.Split.{split}
use samaritan_db.Network.Message.{
  unsubscribe_msg, unknown_msg, config_msg, field_separator, data_msg, gossip_msg_type,
  GossipMsgType, subscribe_msg,
}
use samaritan_db.Contract.State.{new}
use samaritan_db.Network.State.{Libp2p}
use samaritan_db.Database.State.{is_application_init}
use samaritan_db.Database.Gossip.{panicked, finished, Ended}
use samaritan_db.Network.Invariant.{
  with_field-IsSane, IsSane, pass_on-IsSane, shared, gossip_msg-IsSane, shifted-IsSane,
}
use samaritan_db.Network.Client.{Client, gossip_msg}
use samaritan_db.Network.Receive.{
  apply_data, set_modified, pass_on, decline, on_data, receive_message, apply_config, on_config,
  dispatch, on_unsubscribe, on_subscribe, set_pinning_server,
}
use samaritan_db.Database.Invariant.Commands.{handle_gossiped_data-IsWellFormed}

pub apply_data-IsSane :
    (did : Text) (l : List Text) (c : Client) → IsSane c → IsSane (apply_data did l c).1
unfolding apply_data
apply_data-IsSane did l c h = with_field-IsSane 2 l _ c h λ key.
    with_field-IsSane 3 l _ c h λ value. with_field-IsSane 4 l _ c h λ owner.
      with_field-IsSane 5 l _ c h λ time. with_field-IsSane 8 l _ c h λ kind. record {
        state = handle_gossiped_data-IsWellFormed did key value owner time kind c.world h.state;
        seen = h.seen;
        window = h.window;
      }

-- The end of a handled message about data.
ended-IsSane :
    (did message_id bytes : Text) (r : Ended × Client)
    → IsSane r.1
    → IsSane
        (elim r.0 as (λ _. Ended × Client) [
          | finished ↦ (finished, pass_on did message_id bytes r.1)
          | panicked ↦ (panicked, r.1)
        ]).1
ended-IsSane did message_id bytes (finished, c) h = pass_on-IsSane did message_id bytes c h
ended-IsSane did message_id bytes (panicked, c) h = h

decline-IsSane :
    (net : Libp2p) (did peer_id : Text) (l : List Text) (c : Client)
    → IsSane c
    → IsSane (decline net did peer_id l c).1
unfolding decline
decline-IsSane net did peer_id l c h = with_field-IsSane 6 l _ c h λ addr.
    elim (Option-cases (net.parse_multiaddr addr)) [
      | inl e ↦ rw e (shared h refl refl refl)
      | inr (a, e) ↦ rw e (shared h refl refl refl)
    ]

on_data-IsSane :
    (net : Libp2p) (did peer_id message_id bytes : Text) (l : List Text) (c : Client)
    → IsSane c
    → IsSane (on_data net did peer_id message_id bytes l c).1
unfolding on_data
on_data-IsSane net did peer_id message_id bytes l c h =
    elim (Bool-cases (is_application_init did c.world.state)) [
      | inl running ↦
          elim (Bool-cases
            (not (c.local_peer_id == peer_id) && not (contains c.seen_msgs message_id))) [
              | inl new ↦
                  rw (running, new)
                    (ended-IsSane did message_id bytes (apply_data did l (set_modified did c))
                      (apply_data-IsSane did l (set_modified did c) (shared h refl refl refl)))
              | inr old_one ↦ rw (running, old_one) h
            ]
      | inr stopped ↦ rw stopped (decline-IsSane net did peer_id l c h)
    ]

on_subscribe-IsSane :
    (net : Libp2p) (did peer_id : Text) (l : List Text) (c : Client)
    → IsSane c
    → IsSane (on_subscribe net did peer_id l c).1
unfolding on_subscribe
on_subscribe-IsSane net did peer_id l c h =
    elim (Bool-cases (is_application_init did c.world.state)) [
      | inl running ↦ elim (Bool-cases (not (c.ipfs.node_id == peer_id))) [
        | inl other ↦
            rw (running, other)
              (with_field-IsSane 2 l _ c h λ addr. elim (Option-cases (net.parse_multiaddr addr)) [
                | inl e ↦ rw e h
                | inr (a, e) ↦ rw e (
                    with_field-IsSane 3 l _ _ (shared h refl refl refl)
                      λ _. shared h refl refl refl)
              ])
        | inr own ↦ rw (running, own) h
      ]
      | inr stopped ↦ rw stopped (
          with_field-IsSane 2 l _ c h λ addr. elim (Option-cases (net.parse_multiaddr addr)) [
            | inl e ↦ rw e h
            | inr (a, e) ↦ rw e (
                with_field-IsSane 3 l _ c h λ id. elim (Option-cases (net.peer_of_bytes id)) [
                  | inl e' ↦ rw e' h
                  | inr (p, e') ↦ rw e' (shared h refl refl refl)
                ])
          ])
    ]

on_unsubscribe-IsSane :
    (net : Libp2p) (did peer_id : Text) (l : List Text) (c : Client)
    → IsSane c
    → IsSane (on_unsubscribe net did peer_id l c).1
unfolding on_unsubscribe
on_unsubscribe-IsSane net did peer_id l c h =
    elim (Bool-cases (is_application_init did c.world.state)) [
      | inl running ↦ elim (Bool-cases (not (c.ipfs.node_id == peer_id))) [
        | inl other ↦
            rw (running, other)
              (with_field-IsSane 2 l _ c h λ addr. elim (Option-cases (net.parse_multiaddr addr)) [
                | inl e ↦ rw e h
                | inr (a, e) ↦ rw e (
                    with_field-IsSane 3 l _ _ (shared h refl refl refl)
                      λ _. shared h refl refl refl)
              ])
        | inr own ↦ rw (running, own) h
      ]
      | inr stopped ↦ rw stopped h
    ]

-- A reading of the clock leaves the state.
set_pinning_server-IsSane :
    (did url : Text) (t : ℕ) (c : Client) → IsSane c → IsSane (set_pinning_server did url t c)
unfolding set_pinning_server
set_pinning_server-IsSane did url t c h =
    elim (Option-cases (Dict.lookup did c.ipfs.pinning_servers)) [
      | inl e ↦
          rw (set_pinning_server, e) (record { state = h.state; seen = h.seen; window = h.window })
      | inr (cfg, e) ↦ elim (Bool-cases (ltb cfg.1 t)) [
        | inl later ↦
            rw (set_pinning_server, e, later)
              (record { state = h.state; seen = h.seen; window = h.window })
        | inr earlier ↦
            rw (set_pinning_server, e, earlier)
              (record { state = h.state; seen = h.seen; window = h.window })
      ]
    ]

pub apply_config-IsSane :
    (did : Text) (l : List Text) (next : Client → Client) (c : Client)
    → ((d : Client) → IsSane d → IsSane (next d))
    → IsSane c
    → IsSane (apply_config did l next c).1
unfolding apply_config
apply_config-IsSane did l next c n h = with_field-IsSane 8 l _ c h λ cfg.
    with_field-IsSane 5 l _ c h λ time.
      elim (Bool-cases (num_eq (unwrap_or (parse_uint u8_limit cfg) 0) 0)) [
        | inl pinning ↦ rw pinning (
            with_field-IsSane 2 l _ c h λ url.
              n _ (set_pinning_server-IsSane did url (unwrap_or (parse_uint u64_limit time) 0) c h))
        | inr other ↦ rw other h
      ]

on_config-IsSane :
    (did message_id bytes : Text) (l : List Text) (c : Client)
    → IsSane c
    → IsSane (on_config did message_id bytes l c).1
unfolding on_config
on_config-IsSane did message_id bytes l c h =
    apply_config-IsSane did l _ c
      (λ d g.
        shifted-IsSane (gossip_msg bytes did message_id d)
          (gossip_msg-IsSane bytes did message_id d g))
      h

module _ (net : Libp2p) (peer_id message_id bytes : Text) where
  by_kind-IsSane :
      (k : GossipMsgType) (did : Text) (l : List Text) (c : Client)
      → IsSane c
      → IsSane
          (elim k as (λ _. Ended × Client) [
            | data_msg ↦ on_data net did peer_id message_id bytes l c
            | subscribe_msg ↦ on_subscribe net did peer_id l c
            | unsubscribe_msg ↦ on_unsubscribe net did peer_id l c
            | config_msg ↦ on_config did message_id bytes l c
            | unknown_msg ↦ (finished, c)
          ]).1
  by_kind-IsSane data_msg did l c h = on_data-IsSane net did peer_id message_id bytes l c h
  by_kind-IsSane subscribe_msg did l c h = on_subscribe-IsSane net did peer_id l c h
  by_kind-IsSane unsubscribe_msg did l c h = on_unsubscribe-IsSane net did peer_id l c h
  by_kind-IsSane config_msg did l c h = on_config-IsSane did message_id bytes l c h
  by_kind-IsSane unknown_msg did l c h = h

  dispatch-IsSane :
      (l : List Text) (c : Client) → IsSane c → IsSane (dispatch net peer_id message_id bytes l c).1
  unfolding dispatch
  dispatch-IsSane l c h = with_field-IsSane 0 l _ c h λ code. with_field-IsSane 1 l _ c h λ did.
      elim (Option-cases (parse_uint u8_limit code)) [
        | inl e ↦ rw e h
        | inr (n, e) ↦ rw e (by_kind-IsSane (gossip_msg_type n) did l c h)
      ]

  pub receive_message-IsSane :
      (c : Client) → IsSane c → IsSane (receive_message net peer_id message_id bytes c).1
  unfolding receive_message
  receive_message-IsSane c h =
      dispatch-IsSane (split field_separator (unwrap_or (from_utf8 bytes) [])) c h
