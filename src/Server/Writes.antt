-- ===== src/Server/Writes.antt =====
-- Requests that write: the separation of keys and values, and the replies.
use samaritan_db.Prelude.{
  zip, refl, ap, Bool, true, false, Option, none, some, List, map, arith, ltb, num_eq, length, All,
  [], ◌≡◌, ◌∙◌, ◌∷◌, ◌++◌,
}
use samaritan_db.Text.{Text, codes, ◌==◌}
use samaritan_db.Command.Parse.{names_ok, is_not_empty}
use samaritan_db.Database.Reply.{
  empty, bake_response, result_value, bake_error, error_object, data_object, null, Value,
}
use samaritan_db.Database.Set.{set_db_value}
use samaritan_db.Database.World.{World, M, pure}
use samaritan_db.Database.Init.{Outside}
use samaritan_db.Database.Get.{get_db_value}
use samaritan_db.Server.Runs.{AreNames, run-set, run-get, run_refused}
use samaritan_db.Server.{
  separate, insert_request, success, get_request, none_yet, respond, quoted, write_loop, counted,
  read_loop, HttpResponse, replied, reply_now, tally_read, tally, Looped, push_value, summary,
  read_summary, read_one, Read, is_null, read_all,
}
use samaritan_db.Command.{Command}

abbrev pub IsItem : Text → Type 0
IsItem s = (s == codes "::") ≡ false

separate-values : (values : List Text) → All IsItem values → separate false values ≡ ([], values)
unfolding separate
separate-values [] h = refl
separate-values (v ∷ values) h = ground (arith, separate-values values h.1)

-- The items of an insert request, keys first and values behind the separator, are told apart, if
-- none is itself the separator.
pub separate_lem :
    (names values : List Text)
    → All IsItem names
    → All IsItem values
    → separate true (names ++ (codes "::" ∷ values)) ≡ (names, values)
unfolding separate ◌==◌
separate_lem [] values h k = separate-values values k
separate_lem (key ∷ names) values h k = ground (arith, separate_lem names values h.1 k)

-- The result of a set or a get is an object.
result_value-set_db_value :
    (did : Text) (sam_did : Option Text) (key value : Text) (w : World)
    → is_null (result_value (set_db_value did sam_did key value w).0) ≡ false
unfolding set_db_value bake_response bake_error
result_value-set_db_value did sam_did key value w = ground arith

result_value-get_db_value :
    (did : Text) (sam_did : Option Text) (key : Text) (w : World)
    → is_null (result_value (get_db_value did sam_did key w).0) ≡ false
unfolding get_db_value bake_response bake_error
result_value-get_db_value did sam_did key w = ground arith

module _ (out : Outside) (did : Text) (sam_did : Option Text) where
  -- The rest of the loop after the result of one command.
  abbrev write_next : Bool → List Command → Value × World → Looped × World
  write_next single cmds r =
      elim (reply_now single r.0) as (λ _. M Looped) [
        | some response ↦ pure (replied response)
        | none ↦ write_loop out single (tally r.0 none_yet) cmds
      ]
        r.1

  abbrev summarized : Bool → Looped × World → HttpResponse × World
  summarized several r = (summary several r.0, r.1)

  -- A loop over one command replies with its result.
  write_next_single :
      (v : Value) (w : World)
      → is_null v ≡ false
      → summarized false (write_next true [] (v, w)) ≡ (respond v, w)
  unfolding summary
  write_next_single null w h = cc
  write_next_single (error_object m c) w h = refl
  write_next_single (data_object r) w h = refl

  insert_refused :
      (single : Bool) (w : World) (items : List (Text × Text))
      → names_ok did sam_did ≡ false
      → write_loop out single none_yet (map (λ e. Command.set did sam_did e.0 e.1) items) w
        ≡ (counted none_yet, w)
  unfolding write_loop
  insert_refused single w [] h = refl
  insert_refused single w (e ∷ items) h =
      ap (write_next single (map (λ i. Command.set did sam_did i.0 i.1) items))
        (run_refused out did sam_did e.0 e.1 w h)
      ∙ insert_refused single w items h

  -- An insert whose names no command accepts is answered by a success, although nothing is stored.
  pub insert_request_refused :
      (names values : List Text) (w : World)
      → names_ok did sam_did ≡ false
      → insert_request out did names values sam_did w ≡ (success (quoted (bake_response empty)), w)
  unfolding insert_request summary
  insert_request_refused names values w h =
      ap (summarized (ltb 1 (length values)))
        (insert_refused (num_eq (length values) 1) w (zip names values) h)
      ∙ ground arith

  -- A request to store one value, for an initialized application, is answered by a success and does
  -- what the command does.
  pub insert_request-set_db_value :
      (key value : Text) (w : World)
      → AreNames did sam_did
      → is_not_empty key ≡ true
      → is_not_empty value ≡ true
      → insert_request out did (key ∷ []) (value ∷ []) sam_did w ≡ (
        respond (result_value (set_db_value did sam_did key value w).0),
        (set_db_value did sam_did key value w).1,
      )
  unfolding insert_request write_loop zip
  insert_request-set_db_value key value w are k v =
      ap (λ r. summarized false (write_next true [] r))
        (run-set out did sam_did key value w are k v)
      ∙ write_next_single (result_value (set_db_value did sam_did key value w).0)
          (set_db_value did sam_did key value w).1
          (result_value-set_db_value did sam_did key value w)

  abbrev read_replied : Text → Value × World → HttpResponse × World
  read_replied key r =
      let after : Read × World =
        elim (reply_now true r.0) as (λ _. M Read) [
          | some response ↦ pure (read_one response)
          | none ↦ pure (read_all (tally_read r.0 none_yet) (push_value r.0 []))
        ]
          r.1 in
      (read_summary (key ∷ []) after.0, after.1)

  get_next_single :
      (key : Text) (v : Value) (w : World)
      → is_null v ≡ false
      → read_replied key (v, w) ≡ (respond v, w)
  unfolding read_summary
  get_next_single key null w h = cc
  get_next_single key (error_object m c) w h = refl
  get_next_single key (data_object r) w h = refl

  -- A request to read one value is answered by what the command answers.
  pub get_request-get_db_value :
      (key : Text) (w : World)
      → AreNames did sam_did
      → is_not_empty key ≡ true
      → get_request out did (key ∷ []) sam_did w
        ≡ (respond (result_value (get_db_value did sam_did key w).0), w)
  unfolding get_request read_loop
  get_request-get_db_value key w are k =
      ap (read_replied key) (run-get out did sam_did key w are k)
      ∙ get_next_single key (result_value (get_db_value did sam_did key w).0) w
          (result_value-get_db_value did sam_did key w)
