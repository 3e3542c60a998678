-- ===== src/Network/Requests/Given.antt =====
-- What a node makes of messages that a peer gives it.
use samaritan_db.Prelude.{refl, ap, some, List, arith, unwrap_or, All, [], ◌≡◌, ◌∷◌}
use samaritan_db.Text.{Text}
use samaritan_db.Text.Number.{u8_limit, parse_uint}
use samaritan_db.Network.Receive.{apply_data, with_field}
use samaritan_db.Text.Utf8.{from_utf8}
use samaritan_db.Text.Decimal.{show_uint, parse_uint-show_uint}
use samaritan_db.Text.Split.{join, split-join}
use samaritan_db.Network.Message.Fields.{IsField, show_uint-IsField}
use samaritan_db.Network.Client.{Client}
use samaritan_db.Network.Requests.{on_given, take_given, apply_given}
use samaritan_db.Network.Message.{
  data_msg, field_separator, msg_code, get_elem?, gossip_msg_type, GossipMsgType,
}
use samaritan_db.Database.Gossip.{handle_gossiped_data, Ended}

on_given-join :
    (p : Text) (ps : List Text)
    → All IsField (p ∷ ps)
    → let m : Text = join field_separator (p ∷ ps) in
      from_utf8 m ≡ some m → (c : Client) → on_given m c ≡ take_given (p ∷ ps) c
unfolding on_given
on_given-join p ps h text c =
    rw (on_given, text) (ap (λ l. take_given l c) (split-join b'$' (b'$' ∷ []) p ps h))

kind_read : gossip_msg_type (unwrap_or (parse_uint u8_limit (show_uint 0)) 0) ≡ data_msg
unfolding gossip_msg_type
kind_read = rw (parse_uint-show_uint u8_limit 0 (omega arith)) refl

take_given-data :
    (did key value owner write_time addr id write_type : Text) (c : Client)
    → let r : Ended × Client =
        take_given
          (show_uint 0 ∷ did ∷ key ∷ value ∷ owner ∷ write_time ∷ addr ∷ id ∷ write_type ∷ [])
          c in
      (r.1.world ≡ (handle_gossiped_data did key value owner write_time write_type c.world).1)
      × (r.1.seen_msgs ≡ c.seen_msgs)
unfolding take_given with_field get_elem? apply_given apply_data
take_given-data did key value owner write_time addr id write_type c =
    (ap (λ k. (given k).world) kind_read, ap (λ k. (given k).seen_msgs) kind_read)
  where
    given : GossipMsgType → Client
    given k =
        (apply_given k did
          (show_uint 0 ∷ did ∷ key ∷ value ∷ owner ∷ write_time ∷ addr ∷ id ∷ write_type ∷ []) c).1

-- A given message about data is applied, whether or not this node runs the application, and whether or
-- not it has seen the message; nor does it count as seen afterwards.
pub on_given-unchecked :
    (did key value owner write_time addr id write_type : Text) (c : Client)
    → let text : Text = join field_separator (
        show_uint (msg_code data_msg)
        ∷ did
        ∷ key
        ∷ value
        ∷ owner
        ∷ write_time
        ∷ addr
        ∷ id
        ∷ write_type
        ∷ []) in
      All IsField (did ∷ key ∷ value ∷ owner ∷ write_time ∷ addr ∷ id ∷ write_type ∷ [])
      → from_utf8 text ≡ some text
      → ((on_given text c).1.world
          ≡ (handle_gossiped_data did key value owner write_time write_type c.world).1)
        × ((on_given text c).1.seen_msgs ≡ c.seen_msgs)
unfolding msg_code
on_given-unchecked did key value owner write_time addr id write_type c h text =
    let pieces_taken : on_given (join field_separator (show_uint 0 ∷ fields)) c
        ≡ take_given (show_uint 0 ∷ fields) c =
      on_given-join (show_uint 0) fields (show_uint-IsField 0, h) text c in
    rw pieces_taken (take_given-data did key value owner write_time addr id write_type c)
  where
    fields : List Text
    fields = did ∷ key ∷ value ∷ owner ∷ write_time ∷ addr ∷ id ∷ write_type ∷ []
