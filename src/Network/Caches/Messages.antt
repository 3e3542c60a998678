-- ===== src/Network/Caches/Messages.antt =====
-- What `MessageCache` of network.rs holds after any sequence of messages.
use samaritan_db.Prelude.{
  reverse, filter, sym, drop-append, ℕ, zero, suc, refl, ap, inl, inr, Bool, true, false, Option,
  none, some, List, map, append_assoc, append-nil, arith, ltb, leb, Bool-cases, unwrap_or, is_some,
  length, take, drop, All, length-append, [], length-filter-le, ◌≤◌, ◌≡◌, ◌∙◌, ◌&&◌, ◌∷◌, ◌++◌,
  if◌then◌else◌,
}
use samaritan_db.Text.{Text, eq_iff, eq_refl, ◌==◌}
use samaritan_db.Dict.{Dict}
use samaritan_db.Dict
use samaritan_db.Network.Caches.Window.{suffix, suffix-append, length-suffix}
use samaritan_db.Network.Caches.{
  mcache_len, put, get_message, shift, MessageCache, get_gossip_ids, new_cache,
}

-- A message as it is put: its topic, its id and its bytes.
pub record Entry : Type 0 where
  pub topic : Text
  pub message_id : Text
  pub message_data : Text

unfoldable pub put_all : List Entry → MessageCache → MessageCache
unfolding put
put_all [] c = c
put_all (e ∷ es) c = put_all es (put e.topic e.message_id e.message_data c)

lookup-unwrap_or :
    (j : Text) (o : Option (Dict Text))
    → Dict.lookup j (unwrap_or o [])
      ≡ elim o [ some topic_map ↦ Dict.lookup j topic_map | none ↦ none ]
lookup-unwrap_or j none = Dict.lookup-nil j
lookup-unwrap_or j (some m) = refl

-- A message is found where it was put, and no other message changes.
pub get_message-put :
    (t j topic id bytes : Text) (c : MessageCache)
    → get_message t j (put topic id bytes c)
      ≡ (if (topic == t) && (id == j) then some bytes else get_message t j c)
unfolding get_message put
get_message-put t j topic id bytes c = elim (Bool-cases (topic == t)) [
  | inl here ↦
      let same : topic ≡ t = (eq_iff topic t).0 here in
      rw (get_message, put, Dict.lookup-insert t topic, here)
        (rw (Dict.lookup-insert j id bytes) (rw (lookup-unwrap_or j) (rw same refl)))
  | inr there ↦ rw (get_message, put, Dict.lookup-insert t topic, there) refl
]

-- A message in the cache stays there, if with other bytes.
is_some-get_message-put :
    (t j topic id bytes : Text) (c : MessageCache)
    → is_some (get_message t j c) ≡ true
    → is_some (get_message t j (put topic id bytes c)) ≡ true
is_some-get_message-put t j topic id bytes c h =
    ground (arith, get_message-put t j topic id bytes c)

put_all-keeps :
    (t j : Text) (es : List Entry) (c : MessageCache)
    → is_some (get_message t j c) ≡ true
    → is_some (get_message t j (put_all es c)) ≡ true
unfolding put_all
put_all-keeps t j [] c h = h
put_all-keeps t j (e ∷ es) c h =
    put_all-keeps t j es (put e.topic e.message_id e.message_data c)
      (is_some-get_message-put t j e.topic e.message_id e.message_data c h)

get_message-shift : (t j : Text) (c : MessageCache) → get_message t j (shift c) ≡ get_message t j c
unfolding shift get_message
get_message-shift t j c = elim (Bool-cases (ltb mcache_len (length c.current_window))) [
  | inl over ↦ rw over refl
  | inr under ↦ rw under refl
]

-- Whatever has been put is still stored after any further messages, however many, and after the
-- window has been shifted.
pub get_message-put_all :
    (t j bytes : Text) (es : List Entry) (c : MessageCache)
    → is_some (get_message t j (shift (put_all es (put t j bytes c)))) ≡ true
get_message-put_all t j bytes es c =
    ap is_some (get_message-shift t j (put_all es (put t j bytes c)))
    ∙ put_all-keeps t j es (put t j bytes c)
        (ground (arith, get_message-put t j t j bytes c, eq_refl t, eq_refl j))

window_step :
    (w : List Text) (a : Text)
    → (if ltb mcache_len (length (w ++ (a ∷ []))) then drop 1 (w ++ (a ∷ [])) else w ++ (a ∷ []))
      ≡ (if leb mcache_len (length w) then drop 1 w else w) ++ (a ∷ [])
window_step w a = elim (Bool-cases (leb mcache_len (length w))) [
  | inl full ↦
      let over : ltb mcache_len (length (w ++ a ∷ [])) ≡ true =
        ground (arith, length-append w (a ∷ [])) in
      rw (full, over) (drop-append 1 w (a ∷ []) (ground arith))
  | inr room ↦
      let under : ltb mcache_len (length (w ++ a ∷ [])) ≡ false =
        ground (arith, length-append w (a ∷ [])) in
      rw (room, under) refl
]

abbrev pub ids : List Entry → List Text
ids = map (λ e. e.message_id)

put_all-suffix :
    (es : List Entry) (xs : List Text) (c : MessageCache)
    → c.current_window ≡ suffix mcache_len xs
    → (put_all es c).current_window ≡ suffix mcache_len (xs ++ ids es)
unfolding put_all put
put_all-suffix [] xs c h = h ∙ ap (suffix mcache_len) (sym (append-nil xs))
put_all-suffix (e ∷ es) xs c h =
    put_all-suffix es (xs ++ (e.message_id ∷ [])) (put e.topic e.message_id e.message_data c) (
      window_step c.current_window e.message_id
      ∙ ap (λ w. (if leb mcache_len (length w) then drop 1 w else w) ++ (e.message_id ∷ [])) h
      ∙ suffix-append xs e.message_id)
    ∙ ap (suffix mcache_len) (append_assoc xs (e.message_id ∷ []) (ids es))

filter-passes : (p : Text → Bool) (xs : List Text) → All (λ x. p x ≡ true) (filter p xs)
unfolding filter
filter-passes p [] = tt
filter-passes p (x ∷ xs) = elim (Bool-cases (p x)) [
  | inl passed ↦ rw passed (passed, filter-passes p xs)
  | inr off ↦ rw off (filter-passes p xs)
]

length-take : (n : ℕ) (xs : List Text) → length (take n xs) ≤ n
length-take zero xs = omega arith
length-take (suc n) [] = omega arith
length-take (suc n) (x ∷ xs) = omega (arith, length-take n xs)

-- After any messages since the start: the window is the latest 890 ids, so that it is never shifted;
-- and `get_gossip_ids` gives at most as many ids as it is asked for, each of a message that is stored
-- for the topic. (The caller puts one more id in front of them.)
pub put_all-Bounded :
    (es : List Entry) (topic : Text) (n : ℕ)
    → let c : MessageCache = put_all es new_cache in
      (c.current_window ≡ suffix mcache_len (ids es))
      × (shift c ≡ c)
      × (length (get_gossip_ids topic n c) ≤ n)
      × All (λ id. is_some (get_message topic id c) ≡ true) (get_gossip_ids topic n c)
unfolding shift get_gossip_ids
put_all-Bounded es topic n = (window, shifted, few, filter-passes _ _)
  where
    c : MessageCache
    c = put_all es new_cache

    window : c.current_window ≡ suffix mcache_len (ids es)
    window = put_all-suffix es [] new_cache refl

    bound : length c.current_window ≤ mcache_len
    bound = rw window (omega (arith, length-suffix mcache_len (ids es)))

    shifted : shift c ≡ c
    shifted =
        let low : ltb mcache_len (length c.current_window) ≡ false = ground (arith, bound) in
        rw low refl

    few : length (get_gossip_ids topic n c) ≤ n
    few = omega (
      arith,
      length-filter-le (λ id. is_some (get_message topic id c)) (take n (reverse c.current_window)),
      length-take n (reverse c.current_window),
    )
