-- ===== src/Network/Receive/Forged.antt =====
-- What a peer makes of a written value that holds the separator of the messages.
use samaritan_db.Prelude.{ℕ, ap, some, List, All, All-append, [], ◌≡◌, ◌∙◌, ◌∷◌}
use samaritan_db.Text.{Text}
use samaritan_db.Contract.State.{new}
use samaritan_db.Text.Utf8.{from_utf8}
use samaritan_db.Text.Decimal.{show_uint}
use samaritan_db.Text.Split.{join, join-join}
use samaritan_db.Network.Receive.Replication.{receive_message-join, dispatch-world, IsNewMessage}
use samaritan_db.Network.Message.Fields.{IsField, show_uint-IsField}
use samaritan_db.Network.State.{Libp2p}
use samaritan_db.Network.Client.{Client}
use samaritan_db.Network.Message.{
  msg_code, write_code, data_message, data_fields, data_msg, field_separator,
}
use samaritan_db.Network.Receive.{receive_message}
use samaritan_db.Database.Gossip.{WriteDataType, handle_gossiped_data}

module _ (net : Libp2p)
    (sender message_id did key value owner time addr id write_type true_owner : Text) (t : ℕ)
    (true_addr true_id : Text) (c : Client) where
  -- The value that holds the fields of a message behind its own.
  abbrev pub forged_value : Text
  forged_value = join field_separator (value ∷ owner ∷ time ∷ addr ∷ id ∷ write_type ∷ [])

  abbrev pub forged_message : Text
  forged_message =
      data_message did key forged_value true_owner t true_addr true_id WriteDataType.write

  -- A write of such a value under one owner is handled by a peer as a message about another, with the
  -- owner, the time and the kind that stand in the value.
  pub receive_message-forged :
      All IsField (did ∷ key ∷ value ∷ owner ∷ time ∷ addr ∷ id ∷ write_type ∷ [])
      → All IsField (true_owner ∷ true_addr ∷ true_id ∷ [])
      → from_utf8 forged_message ≡ some forged_message
      → IsNewMessage sender message_id did c
      → (receive_message net sender message_id forged_message c).1.world
        ≡ (handle_gossiped_data did key value owner time write_type c.world).1
  unfolding data_message data_fields write_code join
  receive_message-forged h g text new =
      ap (λ m. (receive_message net sender message_id m c).1.world) same
      ∙ ap (λ f. (f c).1.world)
          (receive_message-join net sender message_id (show_uint (msg_code data_msg)) all plain
            (rw same at text))
      ∙ dispatch-world net sender message_id
          (join field_separator (show_uint (msg_code data_msg) ∷ all)) did key value owner time addr
          id write_type rest c new
    where
      rest : List Text
      rest =
          true_owner
          ∷ show_uint t
          ∷ true_addr
          ∷ true_id
          ∷ show_uint (write_code WriteDataType.write)
          ∷ []

      all : List Text
      all = did ∷ key ∷ value ∷ owner ∷ time ∷ addr ∷ id ∷ write_type ∷ rest

      plain : All IsField (show_uint (msg_code data_msg) ∷ all)
      plain = (
        show_uint-IsField (msg_code data_msg),
        All-append IsField (did ∷ key ∷ value ∷ owner ∷ time ∷ addr ∷ id ∷ write_type ∷ []) rest h
            (g.0, (show_uint-IsField t, (g.1.0, (g.1.1.0, (show_uint-IsField 3, tt))))),
      )

      same : forged_message ≡ join field_separator (show_uint (msg_code data_msg) ∷ all)
      same =
          ap (λ r. join field_separator (show_uint (msg_code data_msg) ∷ did ∷ key ∷ r ∷ []))
            (join-join field_separator value (owner ∷ time ∷ addr ∷ id ∷ write_type ∷ []) true_owner
              (show_uint t ∷ true_addr ∷ true_id ∷ show_uint 3 ∷ []))
