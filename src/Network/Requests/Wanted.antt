-- ===== src/Network/Requests/Wanted.antt =====
-- How two nodes agree on the messages that one of them lacks.
use samaritan_db.Prelude.{ℕ, refl, false, not, some, List, is_some, [], ◌≡◌, ◌&&◌, ◌∷◌}
use samaritan_db.Text.{contains, contains-filter, Text, ◌==◌}
use samaritan_db.Dict.{Dict}
use samaritan_db.Dict
use samaritan_db.Network.State.{i_want, Rpc, i_have, Libp2p, ControlAction}
use samaritan_db.Network.Client.{rpc_of, responded, Client}
use samaritan_db.Network.Requests.{answers, on_i_have, on_request, on_i_want, wanted, on_response}
use samaritan_db.Network.Caches.{get_message}

-- A node that is offered ids asks for exactly those of them that it has neither seen nor stored.
pub on_request-wanted :
    (net : Libp2p) (now : ℕ) (topic asker id : Text) (ids more : List Text)
    (rest : List ControlAction) (c : Client)
    → let rpc : Rpc = record { messages = asker ∷ more; control_msgs = i_have topic ids ∷ rest } in
      (asked : List Text) × ((on_request net now rpc c).1.outgoing
        ≡ responded (rpc_of c (i_want topic asked)) ∷ c.outgoing)
      × (contains asked id ≡ (
          contains ids id
          && (not (contains c.seen_msgs id) && not (is_some (get_message topic id c.msg_cache)))))
unfolding on_request on_i_have
on_request-wanted net now topic asker id ids more rest c =
    (wanted topic ids c, refl, contains-filter _ ids id)

on_i_want-misses :
    (net : Libp2p) (topic asker id first bytes : Text) (others : Dict Text) (c : Client)
    → Dict.lookup topic c.msg_cache.topic_data ≡ some ((first, bytes) ∷ others)
    → (id == first) ≡ false
    → on_i_want net topic (id ∷ []) asker c ≡ c
unfolding on_i_want answers
on_i_want-misses net topic asker id first bytes others c h n =
    rw (on_i_want, h) (rw (answers, n) refl)

-- A stored message that is asked for by itself is not given, unless it is the first of its topic in
-- the order of the map.
pub on_response-misses :
    (net : Libp2p) (topic asker id first bytes : Text) (others : Dict Text) (more : List Text)
    (rest : List ControlAction) (c : Client)
    → Dict.lookup topic c.msg_cache.topic_data ≡ some ((first, bytes) ∷ others)
    → (id == first) ≡ false
    → let rpc : Rpc = record {
      messages = asker ∷ more;
      control_msgs = i_want topic (id ∷ []) ∷ rest;
    } in
      (on_response net rpc c).1 ≡ c
unfolding on_response
on_response-misses net topic asker id first bytes others more rest c h n =
    on_i_want-misses net topic asker id first bytes others c h n
