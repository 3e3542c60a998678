-- ===== src/Database/Get/Answered.antt =====
-- The answers of `get_db_value` and `check_db_key_existence`, by what the maps of the state hold.
use samaritan_db.Prelude.{
  refl, inl, inr, true, Option, none, some, arith, Option-cases, unwrap_or, ◌≡◌, ◌↔◌, ◌⊎◌,
  if◌then◌else◌,
}
use samaritan_db.Text.{Text, eq_iff}
use samaritan_db.Dict.{Dict}
use samaritan_db.Database.Reply.{bake_response, get, ok}
use samaritan_db.Database.World.{World}
use samaritan_db.Dict
use samaritan_db.Database.Get.Visible.{readable, get_db_value-visible, visible}
use samaritan_db.Database.View.{access_of, unit_of}
use samaritan_db.Database.State.{HashTable, TempCache, CacheData, DbState, HashTableData, DataUnit}
use samaritan_db.Database.Get.{cached, same_owner, get_db_value}

-- A value cached for an application under the key, by the owner that is asked for: the cache's
-- entry names that owner, or none if none is asked for.
pub record IsCached (did : Text) (sam_did : Option Text) (key value : Text) (s : DbState)
    : Type 0 where
  pub app_cache : TempCache
  pub entry : CacheData
  pub has_cache : Dict.lookup did s.cache ≡ some app_cache
  pub has_entry : Dict.lookup key app_cache ≡ some entry
  pub owner : entry.sam_did ≡ sam_did
  pub holds : entry.value ≡ value

-- A value in memory, whose owner's flag and whose own flag permit to read it.
pub record IsStored (did owner key value : Text) (s : DbState) : Type 0 where
  pub table : HashTable
  pub entry : HashTableData
  pub unit : DataUnit
  pub has_table : Dict.lookup did s.applications ≡ some table
  pub has_entry : Dict.lookup owner table ≡ some entry
  pub has_unit : Dict.lookup key entry.contents ≡ some unit
  pub owner_permits : entry.access ≡ true
  pub unit_permits : unit.access ≡ true
  pub holds : unit.contents ≡ value

same_owner_iff : (a b : Option Text) → (same_owner a b ≡ true) ↔ (a ≡ b)
unfolding same_owner
same_owner_iff none none = (λ _. refl, λ _. refl)
same_owner_iff none (some b) = (λ h. cc, λ h. cc)
same_owner_iff (some a) none = (λ h. cc, λ h. cc)
same_owner_iff (some a) (some b) = ground (arith, eq_iff a b)

cached-some :
    (did : Text) (sam_did : Option Text) (key value : Text) (s : DbState)
    → cached did sam_did key s.cache ≡ some value
    → IsCached did sam_did key value s
unfolding cached
cached-some did sam_did key value s h = elim (Option-cases (Dict.lookup did s.cache)) [
  | inl bare ↦ absurd (ground (arith, h, bare))
  | inr (m, there) ↦ elim (Option-cases (Dict.lookup key m)) [
    | inl missing ↦ absurd (ground (arith, h, there, missing))
    | inr (e, found) ↦ record {
      app_cache = m;
      entry = e;
      has_cache = there;
      has_entry = found;
      owner = (same_owner_iff e.sam_did sam_did).0 (ground (arith, h, there, found));
      holds = ground (arith, h, there, found);
    }
  ]
]

IsCached-cached :
    (did : Text) (sam_did : Option Text) (key value : Text) (s : DbState)
    → IsCached did sam_did key value s
    → cached did sam_did key s.cache ≡ some value
unfolding cached
IsCached-cached did sam_did key value s c =
    rw
      (
        cached,
        c.has_cache,
        c.has_entry,
        (same_owner_iff c.entry.sam_did sam_did).1 c.owner,
        c.holds,
      )
      refl

-- What memory alone shows.
abbrev in_memory : Text → Text → Text → DbState → Option Text
in_memory did owner key s =
    if access_of did owner s then readable (unit_of did owner key s) else none

in_memory-some :
    (did owner key value : Text) (s : DbState)
    → in_memory did owner key s ≡ some value
    → IsStored did owner key value s
unfolding Dict.lookup
in_memory-some did owner key value s h = elim (Option-cases (Dict.lookup did s.applications)) [
  | inl bare ↦ absurd (ground (arith, h, bare))
  | inr (t, loaded) ↦ elim (Option-cases (Dict.lookup owner t)) [
    | inl unknown ↦ absurd (ground (arith, h, loaded, unknown))
    | inr (e, known) ↦ elim (Option-cases (Dict.lookup key e.contents)) [
      | inl missing ↦ absurd (ground (arith, h, loaded, known, missing))
      | inr (u, found) ↦ record {
        table = t;
        entry = e;
        unit = u;
        has_table = loaded;
        has_entry = known;
        has_unit = found;
        owner_permits = ground (arith, h, loaded, known, found);
        unit_permits = ground (arith, h, loaded, known, found);
        holds = ground (arith, h, loaded, known, found);
      }
    ]
  ]
]

IsStored-in_memory :
    (did owner key value : Text) (s : DbState)
    → IsStored did owner key value s
    → in_memory did owner key s ≡ some value
IsStored-in_memory did owner key value s m =
    rw (m.has_table, m.has_entry, m.has_unit, m.owner_permits, m.unit_permits, m.holds) refl

-- A read is answered by a value exactly if the value is cached for the owner that is asked for, or
-- nothing is cached for that owner and the value is in memory, where the owner's flag and its own
-- permit to read it. A value that is cached for another owner is not answered.
pub get_db_value-IsStored :
    (did : Text) (sam_did : Option Text) (key value : Text) (w : World)
    → ((get_db_value did sam_did key w).0 ≡ ok (bake_response (get key value))) ↔ (
        IsCached did sam_did key value w.state
        ⊎ (((v : Text) → ¬ IsCached did sam_did key v w.state)
            × IsStored did (unwrap_or sam_did did) key value w.state))
get_db_value-IsStored did sam_did key value w = (answered, holds)
  where
    owner : Text
    owner = unwrap_or sam_did did

    answered :
        (get_db_value did sam_did key w).0 ≡ ok (bake_response (get key value))
        → IsCached did sam_did key value w.state
          ⊎ (((v : Text) → ¬ IsCached did sam_did key v w.state)
              × IsStored did owner key value w.state)
    answered h =
        let seen : visible did sam_did key w.state ≡ some value =
          (get_db_value-visible did sam_did key value w).0 h in
        elim (Option-cases (cached did sam_did key w.state.cache)) [
          | inl none_cached ↦ inr (
            λ v c.
                absurd (ground (arith, none_cached, IsCached-cached did sam_did key v w.state c)),
            in_memory-some did owner key value w.state (ground (arith, seen, none_cached)),
          )
          | inr (v, hit) ↦
              inl (cached-some did sam_did key value w.state (ground (arith, seen, hit)))
        ]

    holds :
        IsCached did sam_did key value w.state
          ⊎ (((v : Text) → ¬ IsCached did sam_did key v w.state)
              × IsStored did owner key value w.state)
        → (get_db_value did sam_did key w).0 ≡ ok (bake_response (get key value))
    holds (inl c) =
        (get_db_value-visible did sam_did key value w).1
          (rw (visible, IsCached-cached did sam_did key value w.state c) refl)
    holds (inr (bare, m)) =
        (get_db_value-visible did sam_did key value w).1
          (elim (Option-cases (cached did sam_did key w.state.cache)) [
            | inl none_cached ↦
                rw (visible, none_cached) (IsStored-in_memory did owner key value w.state m)
            | inr (v, hit) ↦ absurd (bare v (cached-some did sam_did key v w.state hit))
          ])
