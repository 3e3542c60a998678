-- ===== src/Database/Set/Overlap.antt =====
-- `set_db_value` of database/src/prelude.rs cut where it lets go of the lock: it reads the
-- application's table, or the cache, under one lock, and saves what it made of it under another.
use samaritan_db.Prelude.{ℕ, Option, arith, unwrap_or, is_some, [], ◌≡◌, if◌then◌else◌}
use samaritan_db.Text.{Text}
use samaritan_db.Dict.{Dict}
use samaritan_db.Dict
use samaritan_db.Database.Reply.{
  initialization_error, empty, err, DbServerResult, ok, bake_response, bake_error,
}
use samaritan_db.Database.Set.{set_db_value, write_value}
use samaritan_db.Database.World.{
  gossip_write_data, World, set_network_sync_flag, M, save_cache, load_flag, save_application, gets,
  current_unix_epoch, send, pure, ◌>>=◌, ◌>>◌,
}
use samaritan_db.Database.State.{HashTable, TempCache, insert_data}

-- What a call holds between the two locks: its answer, or the table or the cache to save, with its
-- reading of the clock.
pub data Pending : Type 0 where
  refused : DbServerResult → Pending
  to_memory : ℕ → HashTable → Pending
  to_cache : ℕ → TempCache → Pending

-- The call up to its last reading of the state.
unfoldable pub begin_set : Text → Option Text → Text → Text → M Pending
unfolding write_value
begin_set did sam_did key value = do
  loaded ← gets (λ s. Dict.lookup did s.applications)
  if is_some loaded
      then (do
        now ← current_unix_epoch
        complete ← load_flag
        if complete
            then (do
              app_data ← gets (λ s. unwrap_or (Dict.lookup did s.applications) [])
              app_data' ← write_value (unwrap_or sam_did did) key value app_data
              pure (to_memory now app_data'))
            else (do
              entries ← gets (λ s. unwrap_or (Dict.lookup did s.cache) [])
              pure (to_cache now (insert_data sam_did key value now entries))))
      else pure (refused (err (bake_error initialization_error)))

-- The call from its write of the state.
unfoldable pub end_set : Text → Option Text → Text → Text → Pending → M DbServerResult
end_set did sam_did key value (refused r) = pure r
end_set did sam_did key value (to_memory now app_data) = do
  save_application did app_data
  send (set_network_sync_flag did)
  send (gossip_write_data did key value (unwrap_or sam_did did) now)
  pure (ok (bake_response empty))
end_set did sam_did key value (to_cache now entries) = do
  save_cache did entries
  send (gossip_write_data did key value (unwrap_or sam_did did) now)
  pure (ok (bake_response empty))

-- Without another task between its two halves, the call is `set_db_value`.
pub begin_set-end_set :
    (did : Text) (sam_did : Option Text) (key value : Text) (w : World)
    → (begin_set did sam_did key value >>= end_set did sam_did key value) w
      ≡ set_db_value did sam_did key value w
unfolding begin_set end_set set_db_value
begin_set-end_set did sam_did key value w = ground arith

-- Two calls for one application, which both read before either writes.
unfoldable pub overlapped :
    Text
    → Option Text
    → Text
    → Text
    → Option Text
    → Text
    → Text
    → M (DbServerResult × DbServerResult)
overlapped did a key_a value_a b key_b value_b = do
  p_a ← begin_set did a key_a value_a
  p_b ← begin_set did b key_b value_b
  r_a ← end_set did a key_a value_a p_a
  r_b ← end_set did b key_b value_b p_b
  pure (r_a, r_b)
