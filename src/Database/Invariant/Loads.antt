-- ===== src/Database/Invariant/Loads.antt =====
-- The tables that a node loads from outside, and the invariant through initialization and leaving.
use samaritan_db.Prelude.{
  sym, refl, inl, inr, Bool, true, false, none, some, map, arith, ltb, Bool-cases, Option-cases,
  unwrap_or, length, is_empty, [], subst, ◌≡◌, ◌∷◌, if◌then◌else◌,
}
use samaritan_db.Text.{Text, codes}
use samaritan_db.Dict.{Dict, IsMap, Every}
use samaritan_db.Database.DataMap
use samaritan_db.Database.Flush.Effect.{flush_cache_drops, flush_cache_idle}
use samaritan_db.Dict
use samaritan_db.Database.World.{World, pure}
use samaritan_db.Database.View.{table_of}
use samaritan_db.Database.State.{
  DbState, DataMap, add_application, remove_application, SimpleHashTable, from_simple, HashTable,
  set_data, HashTableData,
}
use samaritan_db.Database.Init.{
  proper_hashtable, load_stored, fetch_hashtable, forget_application, localize_application_data,
  Outside, join_network, localize_entries, load_new, init_application, protocol_version,
  init_hashtable,
}
use samaritan_db.Database.Flush.{flush_cache}
use samaritan_db.Database.Invariant.{IsTable}

-- The maps that the JSON library reads list no key twice.
pub record GivesMaps (out : Outside) : Type 0 where
  pub tables : (s : Text) (t : SimpleHashTable) → out.hashtable_from_str s ≡ some t → IsMap t
  pub data_maps : (s : Text) (m : DataMap) → out.data_map_from_str s ≡ some m → IsMap m

module _ {V W : Type 0} (f : Text × V → Text × W) (same : (e : Text × V) → (f e).0 ≡ e.0) where
  lookup-map-none :
      (k : Text) (t : Dict V) → Dict.lookup k t ≡ none → Dict.lookup k (map f t) ≡ none
  unfolding Dict.lookup
  lookup-map-none k [] h = refl
  lookup-map-none k (e ∷ t) h = ground (arith, same e, lookup-map-none k t)

  map-IsMap : (t : Dict V) → IsMap t → IsMap (map f t)
  map-IsMap [] h = tt
  map-IsMap (e ∷ t) h = (rw (same e) (lookup-map-none e.0 t h.0), map-IsMap t h.1)

  map-Every :
      (P : V → Type 0) (Q : W → Type 0)
      → ((e : Text × V) → P e.1 → Q (f e).1)
      → (t : Dict V) → Every P t
      → Every Q (map f t)
  map-Every P Q g [] h = tt
  map-Every P Q g (e ∷ t) h = (g e h.0, map-Every P Q g t h.1)

values_trivial : (t : SimpleHashTable) → Every (λ e. Unit {0}) t
values_trivial [] = tt
values_trivial (e ∷ t) = (tt, values_trivial t)

pub proper_hashtable-IsTable : (t : SimpleHashTable) → IsMap t → IsTable (proper_hashtable t)
unfolding proper_hashtable from_simple
proper_hashtable-IsTable t h = (
  map-IsMap (λ e. (e.0, record (from_simple e.1) { did = e.0 })) (λ e. refl) t h,
  map-Every (λ e. (e.0, record (from_simple e.1) { did = e.0 })) (λ e. refl) (λ e. Unit {0})
      (λ e. IsMap e.contents) (λ e u. tt) t (values_trivial t),
)

pub localize_entries-IsTable :
    (out : Outside) → GivesMaps out → (t : HashTable) → IsTable t → IsTable (localize_entries out t)
unfolding localize_entries
localize_entries-IsTable out gives t h =
    (map-IsMap f same t h.0, map-Every f same kept kept filled t h.1)
  where
    kept : HashTableData → Type 0
    kept e = IsMap e.contents

    f : Text × HashTableData → Text × HashTableData
    f e = elim (out.fetch_from_ipfs (e.1).cid) [
      | some text ↦ (e.0, set_data (unwrap_or (out.data_map_from_str text) []) e.1)
      | none ↦ e
    ]

    same : (e : Text × HashTableData) → (f e).0 ≡ e.0
    same e = ground arith

    filled : (e : Text × HashTableData) → IsMap (e.1).contents → IsMap ((f e).1).contents
    filled e m = elim (Option-cases (out.fetch_from_ipfs (e.1).cid)) [
      | inl missing ↦ subst IsMap (sym (unfetched missing)) m
      | inr (text, fetched) ↦ elim (Option-cases (out.data_map_from_str text)) [
        | inl unread ↦ subst IsMap (sym (unreadable fetched unread)) tt
        | inr (d, read) ↦ subst IsMap (sym (filled_by fetched read)) (gives.data_maps text d read)
      ]
    ]
      where
        unfetched : out.fetch_from_ipfs (e.1).cid ≡ none → ((f e).1).contents ≡ (e.1).contents
        unfetched missing = ground arith

        unreadable :
            {text : Text}
            → out.fetch_from_ipfs (e.1).cid ≡ some text
            → out.data_map_from_str text ≡ none
            → ((f e).1).contents ≡ []
        unreadable fetched unread = ground arith

        filled_by :
            {text : Text} {d : DataMap}
            → out.fetch_from_ipfs (e.1).cid ≡ some text
            → out.data_map_from_str text ≡ some d
            → ((f e).1).contents ≡ d
        filled_by fetched read = ground arith

init_hashtable-reads :
    (out : Outside) (did cid : Text) (t : SimpleHashTable)
    → init_hashtable out did cid ≡ some t
    → (s : Text) × (out.hashtable_from_str s ≡ some t)
unfolding init_hashtable
init_hashtable-reads out did cid t read = (_, read)

flush_cache-keeps :
    (P : DbState → Type 0) (did : Text) (w : World)
    → P w.state
    → P (record w.state { cache = [] })
    → P (flush_cache did w).1.state
flush_cache-keeps P did w a b =
    elim (Bool-cases (is_empty (unwrap_or (Dict.lookup did w.state.cache) []))) [
      | inl idle ↦ rw (flush_cache_idle did w idle) a
      | inr filled ↦ rw (flush_cache_drops did w filled) b
    ]

module _ (P : DbState → Type 0) (out : Outside) (did : Text) (w : World) (h : P w.state) where
  pub forget_application-keeps :
      (mnemonic : Text)
      → P (remove_application did w.state)
      → P (forget_application out did mnemonic w).1.state
  unfolding forget_application
  forget_application-keeps mnemonic a = ground arith

  pub localize_application_data-keeps :
      let s = record w.state {
        applications =
            Dict.insert did (localize_entries out (table_of did w.state)) w.state.applications;
      } in
      P s → P (record s { cache = [] }) → P (localize_application_data out did w).1.state
  unfolding localize_application_data
  localize_application_data-keeps a b = flush_cache-keeps P did _ a b

  load_stored-keeps :
      (cid : Text)
      → ((s : Text) (t : SimpleHashTable)
          → out.hashtable_from_str s ≡ some t
          → P (add_application did (proper_hashtable t) w.state))
      → P (load_stored out did cid w).1.state
  unfolding load_stored fetch_hashtable
  load_stored-keeps cid b = elim (Option-cases (out.fetch_from_ipfs cid)) [
    | inl missing ↦ ground arith
    | inr (raw, fetched) ↦ elim (Option-cases (out.hashtable_from_str raw)) [
      | inl unread ↦ ground arith
      | inr (t, read) ↦ ground (arith, b raw t read)
    ]
  ]

  join_network-keeps :
      (auth cid : Text)
      → P (record w.state { authenticated = Dict.insert did auth w.state.authenticated })
      → P (join_network out did auth cid w).1.state
  unfolding join_network
  join_network-keeps auth cid a = ground arith

  load_new-keeps :
      ((s : Text) (t : SimpleHashTable)
        → out.hashtable_from_str s ≡ some t
        → P (add_application did (proper_hashtable t) w.state))
      → P (load_new out did w).1.state
  unfolding load_new
  load_new-keeps b = elim (Option-cases (out.write_to_ipfs first)) [
    | inl unstored ↦ ground arith
    | inr (cid, stored) ↦ elim (Option-cases (init_hashtable out did cid)) [
      | inl unread ↦ ground arith
      | inr (t, read) ↦
          let (text, from) = init_hashtable-reads out did cid t read in
          ground (arith, b text t from)
    ]
  ]
    where
      first : DataMap
      first = DataMap.insert (codes "protocol") protocol_version (w.clock w.readings) []

  loaded-keeps :
      (stored : Bool) (cid : Text)
      → ((s : Text) (t : SimpleHashTable)
          → out.hashtable_from_str s ≡ some t
          → P (add_application did (proper_hashtable t) w.state))
      → P ((if stored then load_stored out did cid else load_new out did) w).1.state
  loaded-keeps true cid b = load_stored-keeps cid b
  loaded-keeps false cid b = load_new-keeps b

joined-keeps :
    (P : DbState → Type 0) (out : Outside) (did auth cid : Text)
    → ((s : DbState) → P s → P (record s { authenticated = Dict.insert did auth s.authenticated }))
    → (go_on : Bool) (w : World) → P w.state
    → P ((if go_on then join_network out did auth cid else pure tt) w).1.state
joined-keeps P out did auth cid c true w h = join_network-keeps P out did w h auth cid (c w.state h)
joined-keeps P out did auth cid c false w h = h

pub init_application-keeps :
    (P : DbState → Type 0) (out : Outside) (did mnemonic : Text) (w : World)
    → P w.state
    → ((s : Text) (t : SimpleHashTable)
        → out.hashtable_from_str s ≡ some t
        → P (add_application did (proper_hashtable t) w.state))
    → ((s : DbState)
        → P s
        → P (record s {
          authenticated = Dict.insert did (out.hash_string mnemonic) s.authenticated;
        }))
    → P (init_application out did mnemonic w).1.state
unfolding init_application
init_application-keeps P out did mnemonic w h b c =
    let cid = out.get_app_ht_cid did (out.hash_string mnemonic) in
    joined-keeps P out did (out.hash_string mnemonic) cid c _ _
      (loaded-keeps P out did w h (ltb 9 (length cid)) cid b)
