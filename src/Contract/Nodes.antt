-- ===== src/Contract/Nodes.antt =====
-- The boot node messages of database/contract/lib.rs.
use samaritan_db.Prelude.{
  length-drop, drop-append, ℕ, sym, inl, inr, true, not, arith, leb, Bool-cases, length, drop,
  length-append, [], filter, length-filter-le, flat_map, ◌+◌, ◌-◌, ◌≤◌, ◌≡◌, ◌&&◌, ◌∷◌, ◌++◌,
  if◌then◌else◌,
}
use samaritan_db.Text.{
  contains_self, contains, IsDistinct, contains-append, contains-filter, filter-IsDistinct,
  drop-IsDistinct, contains-drop, append-IsDistinct, Text, eq_iff, ◌==◌,
}
use samaritan_db.Contract.State.{
  DbContract, Outcome, separator, boot_node_added, boot_node_removed, entry_not_found,
}

-- The most boot nodes that are kept.
abbrev pub capacity : ℕ
capacity = 10

unfoldable pub add_address : Text → DbContract → Outcome
add_address addr c = if contains c.nodes addr then (c, entry_not_found addr ∷ []) else (
  record c {
    nodes = (if leb capacity (length c.nodes) then drop 1 c.nodes else c.nodes) ++ addr ∷ [];
  },
  boot_node_added addr ∷ [],
)

unfoldable pub remove_address : Text → DbContract → Outcome
remove_address addr c =
    if contains c.nodes addr
    then (
      record c { nodes = filter (λ address. not (address == addr)) c.nodes },
      boot_node_removed addr ∷ [],
    )
    else (c, entry_not_found addr ∷ [])

unfoldable pub get_node_addresses : DbContract → Text
get_node_addresses c = flat_map (λ addr. addr ++ separator) c.nodes

-- The boot nodes are distinct and at most ten.
pub record IsBounded (c : DbContract) : Type 0 where
  pub within : length c.nodes ≤ capacity
  pub distinct : IsDistinct c.nodes

pub add_address-IsBounded :
    (addr : Text) (c : DbContract) → IsBounded c → IsBounded (add_address addr c).0
unfolding add_address
add_address-IsBounded addr c v = elim (Bool-cases (contains c.nodes addr)) [
  | inl known ↦ rw (known, add_address) v
  | inr new ↦ elim (Bool-cases (leb capacity (length c.nodes))) [
    | inl full ↦
        rw (new, full, add_address)
          (record {
            within = ground (
              arith,
              length-append (drop 1 c.nodes) (addr ∷ []),
              length-drop 1 c.nodes,
              v.within,
            );
            distinct =
                append-IsDistinct (drop 1 c.nodes) addr (contains-drop c.nodes addr new)
                  (drop-IsDistinct c.nodes v.distinct);
          })
    | inr room ↦
        rw (new, room, add_address)
          (record {
            within = ground (arith, length-append c.nodes (addr ∷ []));
            distinct = append-IsDistinct c.nodes addr new v.distinct;
          })
  ]
]

pub remove_address-IsBounded :
    (addr : Text) (c : DbContract) → IsBounded c → IsBounded (remove_address addr c).0
unfolding remove_address
remove_address-IsBounded addr c v = elim (Bool-cases (contains c.nodes addr)) [
  | inl known ↦
      rw (known, remove_address)
        (record {
          within =
              omega (arith, length-filter-le (λ (a : Text). not (a == addr)) c.nodes, v.within);
          distinct = filter-IsDistinct (λ a. not (a == addr)) c.nodes v.distinct;
        })
  | inr new ↦ rw (new, remove_address) v
]

-- A new address goes to the end, and of more than ten the oldest is dropped: the list is the last
-- ten of the addresses in the order of their arrival. A known address changes nothing.
pub add_address-fifo :
    (addr : Text) (c : DbContract)
    → IsBounded c
    → (add_address addr c).0.nodes ≡ (
        if contains c.nodes addr
        then c.nodes
        else drop (length c.nodes + 1 - capacity) (c.nodes ++ addr ∷ []))
unfolding add_address
add_address-fifo addr c v = elim (Bool-cases (contains c.nodes addr)) [
  | inl known ↦ rw (known, add_address)
  | inr new ↦ elim (Bool-cases (leb capacity (length c.nodes))) [
    | inl full ↦
        let one : length c.nodes + 1 - capacity ≡ 1 = ground (arith, v.within) in
        rw (new, one, full, add_address) (sym (drop-append 1 c.nodes (addr ∷ []) (ground arith)))
    | inr room ↦
        let nothing : length c.nodes + 1 - capacity ≡ 0 = ground arith in
        rw (new, nothing, room, add_address)
  ]
]

-- Removing an address takes it off, wherever it stands, and no other.
pub contains-remove_address :
    (a addr : Text) (c : DbContract)
    → contains (remove_address addr c).0.nodes a ≡ (contains c.nodes a && not (a == addr))
unfolding remove_address
contains-remove_address a addr c =
    ground (arith, eq_iff a addr, contains-filter (λ (b : Text). not (b == addr)) c.nodes a)

-- An address that was added is found, if it was new or known.
pub contains-add_address :
    (addr : Text) (c : DbContract) → contains (add_address addr c).0.nodes addr ≡ true
unfolding add_address
contains-add_address addr c = ground (
  arith,
  contains-append c.nodes (addr ∷ []) addr,
  contains-append (drop 1 c.nodes) (addr ∷ []) addr,
  contains_self addr,
)
