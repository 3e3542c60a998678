-- ===== src/Contract/Subscribers.antt =====
-- The subscription messages of database/contract/lib.rs.
use samaritan_db.Prelude.{
  refl, inl, inr, not, none, some, List, arith, Bool-cases, Option-cases, unwrap_or, [], filter,
  flat_map, ◌≡◌, ◌&&◌, ◌||◌, ◌∷◌, ◌++◌, if◌then◌else◌,
}
use samaritan_db.Text.{
  contains, IsDistinct, contains-append, contains-filter, filter-IsDistinct, append-IsDistinct,
  Text, eq_iff, eq_comm, ◌==◌,
}
use samaritan_db.Dict.{Dict, Every}
use samaritan_db.Dict
use samaritan_db.Contract.State.{DbContract, Outcome, separator, topic_subscription_complete}

unfoldable pub subscribe_node : Text → Text → DbContract → Outcome
subscribe_node did addr c =
    let event = topic_subscription_complete did addr in
    elim (Dict.lookup did c.subscribers) [
      | some subs ↦ if contains subs addr then (c, event ∷ []) else (
        record c { subscribers = Dict.insert did (subs ++ addr ∷ []) c.subscribers },
        event ∷ [],
      )
      | none ↦ (record c { subscribers = Dict.insert did (addr ∷ []) c.subscribers }, event ∷ [])
    ]

unfoldable pub unsubscribe_node : Text → Text → DbContract → Outcome
unsubscribe_node did address c = elim (Dict.lookup did c.subscribers) [
  | some nodes ↦
      let filtered_nodes = filter (λ addr. not (addr == address)) nodes in
      (
        record c { subscribers = Dict.insert did filtered_nodes c.subscribers },
        topic_subscription_complete did address ∷ [],
      )
  | none ↦ (c, [])
]

unfoldable pub get_subscribers : Text → DbContract → Text
get_subscribers did c = elim (Dict.lookup did c.subscribers) [
  | some nodes ↦ flat_map (λ vector. vector ++ separator) nodes
  | none ↦ []
]

-- The nodes that run an application; of an unknown one, none.
abbrev pub subscribers_of : Text → DbContract → List Text
subscribers_of did c = unwrap_or (Dict.lookup did c.subscribers) []

-- Afterwards the node is subscribed to the application, and all other subscriptions stand as before.
pub contains-subscribe_node :
    (did addr d a : Text) (c : DbContract)
    → contains (subscribers_of d (subscribe_node did addr c).0) a
      ≡ ((did == d && addr == a) || contains (subscribers_of d c) a)
unfolding subscribe_node contains
contains-subscribe_node did addr d a c = ground (
  arith,
  eq_iff did d,
  eq_iff addr a,
  contains-append (subscribers_of did c) (addr ∷ []) a,
  Dict.lookup-insert d did (subscribers_of did c ++ addr ∷ []) c.subscribers,
  Dict.lookup-insert d did (addr ∷ []) c.subscribers,
)

-- Afterwards the node is not subscribed to the application, and all other subscriptions stand as
-- before.
pub contains-unsubscribe_node :
    (did addr d a : Text) (c : DbContract)
    → contains (subscribers_of d (unsubscribe_node did addr c).0) a
      ≡ (contains (subscribers_of d c) a && not (did == d && addr == a))
unfolding unsubscribe_node contains
contains-unsubscribe_node did addr d a c = ground (
  arith,
  eq_iff did d,
  eq_comm addr a,
  contains-filter (λ (b : Text). not (b == addr)) (subscribers_of did c) a,
  Dict.lookup-insert d did (filter (λ (b : Text). not (b == addr)) (subscribers_of did c))
      c.subscribers,
)

-- No node is subscribed twice to an application.
abbrev pub HasDistinct : DbContract → Type 0
HasDistinct c = Every IsDistinct c.subscribers

pub subscribe_node-HasDistinct :
    (did addr : Text) (c : DbContract) → HasDistinct c → HasDistinct (subscribe_node did addr c).0
unfolding subscribe_node contains
subscribe_node-HasDistinct did addr c h = elim (Option-cases (Dict.lookup did c.subscribers)) [
  | inl first ↦
      rw (first, subscribe_node)
        (Dict.Every-insert IsDistinct did (addr ∷ []) c.subscribers (refl, tt) h)
  | inr (subs, found) ↦ elim (Bool-cases (contains subs addr)) [
    | inl known ↦ rw (found, subscribe_node) (rw known h)
    | inr new ↦
        rw (found, subscribe_node)
          (rw new (
            Dict.Every-insert IsDistinct did (subs ++ addr ∷ []) c.subscribers
              (append-IsDistinct subs addr new
                (Dict.Every-lookup IsDistinct did c.subscribers h found))
              h))
  ]
]

pub unsubscribe_node-HasDistinct :
    (did addr : Text) (c : DbContract) → HasDistinct c → HasDistinct (unsubscribe_node did addr c).0
unfolding unsubscribe_node
unsubscribe_node-HasDistinct did addr c h = elim (Option-cases (Dict.lookup did c.subscribers)) [
  | inl unknown ↦ rw (unknown, unsubscribe_node) h
  | inr (nodes, found) ↦
      rw (found, unsubscribe_node)
        (Dict.Every-insert IsDistinct did (filter (λ a. not (a == addr)) nodes) c.subscribers
          (filter-IsDistinct (λ a. not (a == addr)) nodes
            (Dict.Every-lookup IsDistinct did c.subscribers h found))
          h)
]
