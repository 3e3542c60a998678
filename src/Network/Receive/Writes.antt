-- ===== src/Network/Receive/Writes.antt =====
-- What the database of one node makes of the messages that another publishes.
use samaritan_db.Database.Gossip.Entries.{gossiped}
use samaritan_db.Prelude.{
  sym, ℕ, refl, ap, false, some, List, map, append_assoc, arith, ltb, unwrap_or, All, [], subst,
  ◌<◌, ◌≡◌, ◌∙◌, ◌&&◌, ◌∷◌, ◌++◌, if◌then◌else◌,
}
use samaritan_db.Text.{Text}
use samaritan_db.Text.Decimal.{show_uint, parse_uint-show_uint}
use samaritan_db.Network.Receive.Replication.{dispatch-world, receive_message-join, IsNewMessage}
use samaritan_db.Network.State.{i_give}
use samaritan_db.Database.DataMap
use samaritan_db.Text.Number.{u64_limit, u8_limit}
use samaritan_db.Text.Utf8.{from_utf8}
use samaritan_db.Network.Message.Fields.{IsField, show_uint-IsField}
use samaritan_db.Network.Client.Retries.{gives_up, publish_loop_ends}
use samaritan_db.Network.Client.{
  Client, Outgoing, published, emit_all, publish_msg, emit, rpc_of, peers_of, requested_of, publish,
}
use samaritan_db.Network.Channel.{Surroundings, handle_channel, gossip_data}
use samaritan_db.Network.Message.{data_message, write_code, data_fields, data_msg, msg_code}
use samaritan_db.Network.Receive.{receive_message}
use samaritan_db.Database.Gossip.Units.{written_at, gossiped_write_units, KeepsRest}
use samaritan_db.Database.World.{gossip_write_data}
use samaritan_db.Database.View.{entry_of, unit_of, same_place}
use samaritan_db.Database.State.{HashTableData}
use samaritan_db.Database.Gossip.{WriteDataType, handle_gossiped_data}

emit_all-outgoing :
    (os : List Outgoing) (c : Client)
    → (before : List Outgoing) × ((emit_all os c).outgoing ≡ before ++ c.outgoing)
unfolding emit_all
emit_all-outgoing [] c = ([], refl)
emit_all-outgoing (o ∷ os) c =
    let (before, e) = emit_all-outgoing os (emit o c) in
    (before ++ o ∷ [], e ∙ sym (append_assoc before (o ∷ []) c.outgoing))

-- A message of this node whose publication succeeds goes out.
publish_msg-outgoing :
    (message did : Text) (c : Client)
    → gives_up c ≡ false
    → (later : List Outgoing) × ((publish_msg message did c).outgoing
        ≡ later ++ published did message ∷ c.outgoing)
unfolding publish_msg
publish_msg-outgoing message did c h =
    let (c', ends, same) = publish_loop_ends 0 did message c in
    let (later, e) = emit_all-outgoing (given c) (publish did message c) in
    (
      later,
      e
          ∙ ap (◌++◌ later)
              (ap (λ r. (unwrap_or r c).outgoing) ends ∙ ap (λ r. r.outgoing) same ∙ rw h refl),
    )
  where
    given : Client → List Outgoing
    given c =
        map (λ p. requested_of p.peer_id (rpc_of c (i_give (message ∷ []))))
          (peers_of did c.gossipsub.metadata_peers)

-- The message that a node with this address makes of a write.
abbrev pub written_message : Surroundings → Text → Text → Text → Text → ℕ → Client → Text
written_message around did key value owner t a =
    data_message did key value owner t around.multi_addr a.local_peer_id WriteDataType.write

-- What the two nodes and the write must be.
pub record IsReplicable (around : Surroundings) (sender message_id did key value owner : Text)
    (t : ℕ) (a c : Client) : Type 0 where
  -- The sender can publish, and its fields are free of the separator's byte.
  pub publishes : gives_up a ≡ false
  pub fields : All IsField (did ∷ key ∷ value ∷ owner ∷ around.multi_addr ∷ a.local_peer_id ∷ [])
  pub is_text :
      from_utf8 (written_message around did key value owner t a)
      ≡ some (written_message around did key value owner t a)
  pub time_fits : t < u64_limit
  -- The receiver runs the application and has not seen the message.
  pub is_new : IsNewMessage sender message_id did c

module _ (around : Surroundings) (sender message_id did key value owner : Text) (t : ℕ)
    (a c : Client) where
  -- A write that one node announces reaches another that has an entry of the owner. Assumed is that
  -- the sender's publication succeeds, that the fields are free of the separator's byte and the message
  -- is UTF-8, that the time is a u64, and that the receiver runs the application and has not seen the
  -- message. Then the message goes out, and the receiver's database stores the value with its own time exactly
  -- if the unit at its place is older than the write; it changes no other unit, and no entry's
  -- permission, time or link, no cached value, no secret, and its database announces nothing.
  pub handle_channel-receive_message :
      (e : HashTableData)
      → IsReplicable around sender message_id did key value owner t a c
      → entry_of did owner c.world.state ≡ some e
      → (m : Text) × ((later : List Outgoing) × ((handle_channel around
              (gossip_write_data did key value owner t)
              a).outgoing
            ≡ later ++ published did m ∷ a.outgoing))
        × ((d o k : Text)
            → unit_of d o k (receive_message around.net sender message_id m c).1.world.state ≡ (
                if same_place did owner key d o k
                  && ltb (written_at (unit_of did owner key c.world.state)) t
                then some (DataMap.written value (c.world.clock c.world.readings))
                else unit_of d o k c.world.state))
        × KeepsRest c.world (receive_message around.net sender message_id m c).1.world
  unfolding handle_channel gossip_data data_message data_fields write_code
  handle_channel-receive_message e r known = (
    message,
    publish_msg-outgoing message did a r.publishes,
    λ d o k. ap (λ w. unit_of d o k w.state) world ∙ stored.0 d o k,
    subst (KeepsRest c.world) (sym world) stored.1,
  )
    where
      message : Text
      message = written_message around did key value owner t a

      stored :
          ((d o k : Text)
            → unit_of d o k (gossiped did key value owner (show_uint t) (show_uint 3) c.world).state
              ≡ (if same_place did owner key d o k
                    && ltb (written_at (unit_of did owner key c.world.state)) t
                  then some (DataMap.written value (c.world.clock c.world.readings))
                  else unit_of d o k c.world.state))
          × KeepsRest c.world (gossiped did key value owner (show_uint t) (show_uint 3) c.world)
      stored =
          gossiped_write_units did key value owner (show_uint t) (show_uint 3) t c.world e known (
            parse_uint-show_uint u64_limit t r.time_fits,
            parse_uint-show_uint u8_limit 3 (omega arith),
          )

      fields :
          All IsField (
            data_fields did key value owner t around.multi_addr a.local_peer_id WriteDataType.write)
      fields =
          let h = r.fields in
          (
            show_uint-IsField (msg_code data_msg),
            (
              h.0,
              (
                h.1.0,
                (
                  h.1.1.0,
                  (
                    h.1.1.1.0,
                    (
                      show_uint-IsField t,
                      (h.1.1.1.1.0, (h.1.1.1.1.1.0, (show_uint-IsField 3, tt))),
                    ),
                  ),
                ),
              ),
            ),
          )

      world :
          (receive_message around.net sender message_id message c).1.world
          ≡ (handle_gossiped_data did key value owner (show_uint t) (show_uint 3) c.world).1
      world =
          ap (λ f. (f c).1.world)
            (receive_message-join around.net sender message_id _ _ fields r.is_text)
          ∙ dispatch-world around.net sender message_id message did key value owner (show_uint t)
              around.multi_addr a.local_peer_id (show_uint 3) [] c r.is_new
