-- ===== src/Network/Image/Entries.antt =====
-- What an upload leaves of an application's table, and what it publishes.
use samaritan_db.Prelude.{
  sym, refl, inl, inr, true, false, none, some, arith, Bool-cases, Option-cases, unwrap_or,
  is_empty, All, [], subst, ◌≡◌, ◌⊎◌, ◌∷◌,
}
use samaritan_db.Text.{Text, eq_iff, eq_refl, ◌==◌}
use samaritan_db.Dict.{Dict, IsMap}
use samaritan_db.Dict
use samaritan_db.Network.State.{IpfsManager}
use samaritan_db.Network.Image.{
  upload_entry, Ipfs, simple_table, upload_entries, app_table, publish_table, update_data_image,
}
use samaritan_db.Database.State.{DbState, HashTable, add_application, HashTableData}

-- The second table is the first, or the first with the content id of one owner changed.
abbrev pub OneSaved : HashTable → HashTable → Type 0
OneSaved t t' =
    (t' ≡ t)
    ⊎ ((owner : Text) × (e : HashTableData) × (cid : Text) × (Dict.lookup owner t ≡ some e)
        × (t' ≡ Dict.insert owner (record e { cid = cid }) t))

-- The entries of a table are found in it.
abbrev Listed : HashTable → HashTable → Type 0
Listed t = All (λ e. Dict.lookup e.0 t ≡ some e.1)

Listed-cons :
    (k : Text) (v : HashTableData) (m es : HashTable)
    → Dict.lookup k m ≡ none
    → Listed m es
    → Listed ((k, v) ∷ m) es
unfolding Dict.lookup
Listed-cons k v m [] n h = tt
Listed-cons k v m ((j, w) ∷ es) n h = (ground (arith, eq_iff k j, h.0), Listed-cons k v m es n h.1)

IsMap-Listed : (m : HashTable) → Dict.IsMap m → Listed m m
unfolding Dict.lookup
IsMap-Listed [] h = tt
IsMap-Listed ((k, v) ∷ m) h =
    (ground (arith, eq_refl k), Listed-cons k v m m h.0 (IsMap-Listed m h.1))

app_table-add_application :
    (did : Text) (t : HashTable) (s : DbState) → app_table did (add_application did t s) ≡ t
app_table-add_application did t s = rw (Dict.lookup-insert did did, eq_refl did) refl

module _ (ipfs : Ipfs) (did : Text) (m : IpfsManager) where
  upload_entry-OneSaved :
      (t : HashTable) (owner_did : Text) (e : HashTableData) (s : DbState)
      → Dict.lookup owner_did t ≡ some e
      → OneSaved t (app_table did s)
      → OneSaved t (app_table did (upload_entry ipfs did m t owner_did e s).0)
  unfolding upload_entry
  upload_entry-OneSaved t owner_did e s h k = elim (Bool-cases (is_empty e.contents)) [
    | inl none_there ↦ rw none_there k
    | inr some_there ↦ elim (Option-cases (ipfs.write_data e.contents)) [
      | inl lost ↦ rw (some_there, lost) k
      | inr (c, sent_off) ↦ elim (Bool-cases (c == e.cid)) [
        | inl same ↦ rw (some_there, sent_off, same) k
        | inr changed ↦
            rw (some_there, sent_off, changed)
              (rw app_table-add_application (inr (owner_did, e, c, h, refl)))
      ]
    ]
  ]

  upload_entries-OneSaved :
      (t es : HashTable) (s : DbState)
      → Listed t es
      → OneSaved t (app_table did s)
      → OneSaved t (app_table did (upload_entries ipfs did m t es s).0)
  unfolding upload_entries
  upload_entries-OneSaved t [] s h k = k
  upload_entries-OneSaved t ((owner_did, e) ∷ es) s h k =
      upload_entries-OneSaved t es (upload_entry ipfs did m t owner_did e s).0 h.1
        (upload_entry-OneSaved t owner_did e s h.0 k)

-- An upload saves the content id of one owner at most, whatever number of owners it has uploaded data
-- for, and changes nothing else of the application's table. (The table is a map.)
pub update_data_image-OneSaved :
    (ipfs : Ipfs) (did : Text) (s : DbState) (m : IpfsManager)
    → Dict.IsMap (app_table did s)
    → OneSaved (app_table did s) (app_table did (update_data_image ipfs did s m).0)
unfolding update_data_image
update_data_image-OneSaved ipfs did s m h =
    elim (Bool-cases (unwrap_or (Dict.lookup did m.modified) false)) [
      | inl changed ↦ rw changed (
          upload_entries-OneSaved ipfs did m (app_table did s) (app_table did s) s
            (IsMap-Listed (app_table did s) h) (inl refl))
      | inr kept ↦ rw kept (inl refl)
    ]

OneSaved-is_empty : (t t' : HashTable) → OneSaved t t' → is_empty t ≡ false → is_empty t' ≡ false
unfolding Dict.insert
OneSaved-is_empty t t' (inl e) h = rw e h
OneSaved-is_empty [] t' (inr r) h = cc
OneSaved-is_empty ((k, v) ∷ t) t' (inr (owner, e, cid, h, same)) h' =
    rw same (elim (Bool-cases (k == owner)) [ inl here ↦ rw here refl | inr there ↦ rw there refl ])

publish_table-cids :
    (ipfs : Ipfs) (did cid : Text) (m : IpfsManager) (t : HashTable)
    → is_empty t ≡ false
    → ipfs.write_table (simple_table t) ≡ some cid
    → unwrap_or (Dict.lookup did (publish_table ipfs did m t).0.cids) [] ≡ cid
unfolding publish_table
publish_table-cids ipfs did cid m t h k =
    elim (Bool-cases (cid == unwrap_or (Dict.lookup did m.cids) [])) [
      | inl same ↦
          rw (h, k, same) (sym ((eq_iff cid (unwrap_or (Dict.lookup did m.cids) [])).0 same))
      | inr changed ↦ rw (h, k, changed) (rw (Dict.lookup-insert did did, eq_refl did) refl)
    ]

-- The content id that a node holds for the application's table after an upload is that of the table
-- it then holds, and the application no longer counts as modified: if it did, if its table is not
-- empty and a map, and if IPFS takes the table.
pub update_data_image-publishes :
    (ipfs : Ipfs) (did cid : Text) (s : DbState) (m : IpfsManager)
    → Dict.lookup did m.modified ≡ some true
    → is_empty (app_table did s) ≡ false
    → Dict.IsMap (app_table did s)
    → let (s', (m', calls)) = update_data_image ipfs did s m in
      ipfs.write_table (simple_table (app_table did s')) ≡ some cid
      → (unwrap_or (Dict.lookup did m'.cids) [] ≡ cid) × (Dict.lookup did m'.modified ≡ some false)
unfolding update_data_image
update_data_image-publishes ipfs did cid s m h n k w = rw h (
    rw n (
      publish_table-cids ipfs did cid m (app_table did s') full w',
      rw (Dict.lookup-insert did did, eq_refl did) refl,
    ))
  where
    s' : DbState
    s' = (upload_entries ipfs did m (app_table did s) (app_table did s) s).0

    same : (update_data_image ipfs did s m).0 ≡ s'
    same = rw (update_data_image, h) refl

    full : is_empty (app_table did s') ≡ false
    full =
        OneSaved-is_empty (app_table did s) (app_table did s')
          (subst (λ r. OneSaved (app_table did s) (app_table did r)) same
            (update_data_image-OneSaved ipfs did s m k))
          n

    w' : ipfs.write_table (simple_table (app_table did s')) ≡ some cid
    w' = rw h at w
