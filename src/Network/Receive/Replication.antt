-- ===== src/Network/Receive/Replication.antt =====
-- How a write of one node reaches another.
use samaritan_db.Prelude.{
  refl, ap, true, false, some, List, arith, unwrap_or, All, [], ◌≡◌, ◌∙◌, ◌∷◌,
}
use samaritan_db.Text.{contains, Text, ◌==◌}
use samaritan_db.Text.Split.{split, join, split-join}
use samaritan_db.Text.Number.{u8_limit}
use samaritan_db.Network.Message.Fields.{IsField}
use samaritan_db.Text.Utf8.{from_utf8}
use samaritan_db.Text.Decimal.{show_uint, parse_uint-show_uint}
use samaritan_db.Network.Client.Retries.{publish_loop_ends}
use samaritan_db.Network.State.{Libp2p}
use samaritan_db.Network.Client.{gossip_msg, publish, Client, emit, Outgoing, emit_all}
use samaritan_db.Network.Message.{gossip_msg_type, msg_code, get_elem?, data_msg, field_separator}
use samaritan_db.Network.Receive.{
  receive_message, pass_on, apply_data, on_data, dispatch, set_modified, with_field,
}
use samaritan_db.Database.State.{is_application_init}
use samaritan_db.Database.Gossip.{Ended, handle_gossiped_data, finished, panicked}

emit_all-world : (os : List Outgoing) (c : Client) → (emit_all os c).world ≡ c.world
unfolding emit_all
emit_all-world [] c = refl
emit_all-world (o ∷ os) c = emit_all-world os (emit o c)

publish-world : (did message : Text) (c : Client) → (publish did message c).world ≡ c.world
publish-world did message c =
    let (c', ends, same) = publish_loop_ends 0 did message c in
    ap (λ r. (unwrap_or r c).world) ends ∙ ap (λ r. r.world) same

gossip_msg-world :
    (message did message_id : Text) (c : Client)
    → (gossip_msg message did message_id c).world ≡ c.world
unfolding gossip_msg
gossip_msg-world message did message_id c =
    rw (gossip_msg, emit_all-world) (publish-world did message c)

pass_on-world :
    (did message_id bytes : Text) (c : Client) → (pass_on did message_id bytes c).world ≡ c.world
unfolding pass_on
pass_on-world did message_id bytes c = rw (pass_on, gossip_msg-world) refl

-- Passing the message on, if it could be handled, leaves the database alone.
ended-world :
    (did message_id bytes : Text) (e : Ended) (c : Client)
    → (elim e as (λ _. Ended × Client) [
      | finished ↦ (finished, pass_on did message_id bytes c)
      | panicked ↦ (panicked, c)
    ]).1.world
      ≡ c.world
ended-world did message_id bytes finished c = pass_on-world did message_id bytes c
ended-world did message_id bytes panicked c = refl

-- The node runs the application, and the message is another's and new.
pub record IsNewMessage (sender message_id did : Text) (c : Client) : Type 0 where
  pub running : is_application_init did c.world.state ≡ true
  pub foreign : (c.local_peer_id == sender) ≡ false
  pub unseen : contains c.seen_msgs message_id ≡ false

module _ (net : Libp2p)
    (sender message_id bytes did key value owner write_time addr id write_type : Text)
    (rest : List Text) (c : Client) where
  -- The pieces of a message about data, whatever follows them.
  abbrev pub message_pieces : List Text
  message_pieces =
      show_uint (msg_code data_msg)
      ∷ did
      ∷ key
      ∷ value
      ∷ owner
      ∷ write_time
      ∷ addr
      ∷ id
      ∷ write_type
      ∷ rest

  -- The first nine pieces of a message about data say what it does to the database.
  pub dispatch-world :
      IsNewMessage sender message_id did c
      → (dispatch net sender message_id bytes message_pieces c).1.world
        ≡ (handle_gossiped_data did key value owner write_time write_type c.world).1
  unfolding dispatch with_field get_elem? msg_code gossip_msg_type on_data handle_gossiped_data
  dispatch-world n = rw (parse_uint-show_uint u8_limit 0 (omega arith)) (
      rw (n.running, n.foreign, n.unseen)
        (ended-world did message_id bytes (apply_data did message_pieces (set_modified did c)).0
            (apply_data did message_pieces (set_modified did c)).1
          ∙ applied))
    where
      applied :
          (apply_data did message_pieces (set_modified did c)).1.world
          ≡ (handle_gossiped_data did key value owner write_time write_type c.world).1
      applied = unfold apply_data with_field get_elem? in refl

-- A message made of pieces without the separator's byte is handled by its pieces.
pub receive_message-join :
    (net : Libp2p) (sender message_id p : Text) (ps : List Text)
    → All IsField (p ∷ ps)
    → let m : Text = join field_separator (p ∷ ps) in
      from_utf8 m ≡ some m
      → receive_message net sender message_id m ≡ dispatch net sender message_id m (p ∷ ps)
unfolding receive_message
receive_message-join net sender message_id p ps h text =
    ap (dispatch net sender message_id (join field_separator (p ∷ ps)))
      (ap (λ o. split field_separator (unwrap_or o [])) text ∙ split-join b'$' (b'$' ∷ []) p ps h)
