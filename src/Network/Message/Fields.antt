-- ===== src/Network/Message/Fields.antt =====
-- The fields of a message come back from its text.
use samaritan_db.Prelude.{ℕ, true, arith, All, [], ◌≡◌, ◌≢◌, ◌∷◌}
use samaritan_db.Text.{Text}
use samaritan_db.Text.Number.{is_digit}
use samaritan_db.Text.Decimal.{show_uint-IsNumeral, show_uint}
use samaritan_db.Text.Split.{split, split-join}
use samaritan_db.Network.Message.{msg_code, field_separator, data_message, data_msg, data_fields}
use samaritan_db.Database.Gossip.{WriteDataType}

-- A text that the separator's byte does not occur in.
abbrev pub IsField : Text → Type 0
IsField = All (λ b. b ≢ b'$')

digits-IsField : (s : Text) → All (λ b. is_digit b ≡ true) s → IsField s
digits-IsField [] h = tt
digits-IsField (b ∷ s) h = (ground arith, digits-IsField s h.1)

pub show_uint-IsField : (n : ℕ) → IsField (show_uint n)
show_uint-IsField n = digits-IsField (show_uint n) (show_uint-IsNumeral n).1

-- The fields of a message about data are read back in their places.
pub split-data_message :
    (did key value owner_did : Text) (t : ℕ) (multi_addr peer_id : Text) (kind : WriteDataType)
    → IsField did
    → IsField key
    → IsField value
    → IsField owner_did
    → IsField multi_addr
    → IsField peer_id
    → split field_separator (data_message did key value owner_did t multi_addr peer_id kind)
      ≡ data_fields did key value owner_did t multi_addr peer_id kind
unfolding data_message data_fields
split-data_message did key value owner_did t multi_addr peer_id kind d k v o a p =
    split-join b'$' (b'$' ∷ []) (show_uint (msg_code data_msg)) _ (
      show_uint-IsField _,
      (d, (k, (v, (o, (show_uint-IsField t, (a, (p, (show_uint-IsField _, tt)))))))),
    )
