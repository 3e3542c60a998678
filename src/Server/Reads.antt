-- ===== src/Server/Reads.antt =====
-- The reply to a request for several values.
use samaritan_db.Prelude.{
  sym, ℕ, refl, ap, inl, inr, true, false, Option, none, some, List, map, append_assoc, append-nil,
  arith, num_eq, Bool-cases, Option-cases, length, All, [], subst, ap₂, ◌+◌, ◌<◌, ◌≡◌, ◌∙◌, ◌↔◌,
  ◌∷◌, ◌++◌,
}
use samaritan_db.Text.{contains, Text, eq_iff, ◌==◌}
use samaritan_db.Database.Get.{get_db_value}
use samaritan_db.Command.{Command}
use samaritan_db.Command.Parse.{is_not_empty}
use samaritan_db.Database.Get.Visible.{visible}
use samaritan_db.Database.Reply.{
  Value, bake_response, get, null, error_object, result_value, data_object,
}
use samaritan_db.Database.World.{World, pure, M}
use samaritan_db.Database.Init.{Outside}
use samaritan_db.Server.Runs.{AreNames, run-get, Answers, result_value-Answers}
use samaritan_db.Server.{
  read_loop, read_all, run, tally_read, Failures, is_failure, is_null, push_value, Read, reply_now,
  read_one, quoted_values, success, get_request, none_yet, read_summary, HttpResponse,
  internal_server_error, quoted,
}

module _ (out : Outside) (did : Text) (sam_did : Option Text) (w : World) where
  -- The values that are visible under the keys, in order, and the number of keys without one.
  abbrev pub found : List Text → List Text
  found [] = []
  found (key ∷ names) = elim (visible did sam_did key w.state) [
    | some value ↦ value ∷ found names
    | none ↦ found names
  ]

  abbrev pub hidden : List Text → ℕ
  hidden [] = 0
  hidden (key ∷ names) = elim (visible did sam_did key w.state) [
    | some value ↦ hidden names
    | none ↦ hidden names + 1
  ]

  -- The rest of the loop after the result of one read.
  abbrev read_next : Failures → List (Option Text) → List Text → Value × World → Read × World
  read_next f values names r =
      elim (reply_now false r.0) as (λ _. M Read) [
        | some response ↦ pure (read_one response)
        | none ↦ read_loop out false did sam_did (tally_read r.0 f) (push_value r.0 values) names
      ]
        r.1

  read_loop-cons :
      (v : Value) (f : Failures) (values : List (Option Text)) (key : Text) (names : List Text)
      → run out (Command.get did sam_did key) w ≡ (v, w)
      → read_loop out false did sam_did f values (key ∷ names) w
        ≡ read_loop out false did sam_did (tally_read v f) (push_value v values) names w
  unfolding read_loop
  read_loop-cons null f values key names e = ap (read_next f values names) e
  read_loop-cons (error_object m c) f values key names e = ap (read_next f values names) e
  read_loop-cons (data_object r) f values key names e = ap (read_next f values names) e

  tally_read-failure :
      (v : Value) (n : ℕ) (last : Value) (values : List (Option Text))
      → is_null v ≡ false
      → is_failure v ≡ true
      → (tally_read v (n, last) ≡ (n + 1, v)) × (push_value v values ≡ values)
  tally_read-failure v n last values h k = ground arith

  read_loop_lem :
      AreNames did sam_did
      → (n : ℕ) (last : Value) (values : List (Option Text)) (names : List Text)
      → All (λ key. is_not_empty key ≡ true) names
      → (e : Value) × (read_loop out false did sam_did (n, last) values names w
          ≡ (read_all (n + hidden names, e) (values ++ map some (found names)), w))
  unfolding read_loop bake_response
  read_loop_lem are n last values [] h =
      (last, ap₂ (λ m vs. (read_all (m, last) vs, w)) (omega arith) (sym (append-nil values)))
  read_loop_lem are n last values (key ∷ names) h =
      elim (Option-cases (visible did sam_did key w.state)) [
        | inl none_seen ↦
            let f = subst (λ o. Answers key o v) none_seen answers in
            let c = tally_read-failure v n last values f.0 f.1 in
            let (e, ih) = read_loop_lem are (n + 1) v values names h.1 in
            (
              e,
              step
                  ∙ ap₂ (λ t vs. read_loop out false did sam_did t vs names w) c.0 c.1
                  ∙ ih
                  ∙ rw (none_seen, hidden, found)
                      (ap (λ m. (read_all (m, e) (values ++ map some (found names)), w))
                        (omega arith)),
            )
        | inr (x, seen) ↦
            let f : v ≡ bake_response (get key x) = subst (λ o. Answers key o v) seen answers in
            let (e, ih) = read_loop_lem are n last (values ++ (some x ∷ [])) names h.1 in
            (
              e,
              step
                  ∙ ap
                      (λ u.
                        read_loop out false did sam_did (tally_read u (n, last))
                          (push_value u values) names w)
                      f
                  ∙ ih
                  ∙ rw (seen, hidden, found)
                      (ap (λ vs. (read_all (n + hidden names, e) vs, w))
                        (append_assoc values (some x ∷ []) (map some (found names)))),
            )
      ]
    where
      v : Value
      v = result_value (get_db_value did sam_did key w).0

      answers : Answers key (visible did sam_did key w.state) v
      answers = result_value-Answers did sam_did key w

      step :
          read_loop out false did sam_did (n, last) values (key ∷ names) w
          ≡ read_loop out false did sam_did (tally_read v (n, last)) (push_value v values) names w
      step = read_loop-cons v (n, last) values key names (run-get out did sam_did key w are h.0)

  found-visible :
      (names : List Text)
      → hidden names ≡ 0
      → map (λ key. visible did sam_did key w.state) names ≡ map some (found names)
  found-visible [] h = refl
  found-visible (key ∷ names) h = ground (arith, found-visible names)

  visible-found :
      (names values : List Text)
      → map (λ key. visible did sam_did key w.state) names ≡ map some values
      → (hidden names ≡ 0) × (found names ≡ values)
  visible-found [] [] h = (refl, refl)
  visible-found [] (v ∷ values) h = cc
  visible-found (key ∷ names) [] h = cc
  visible-found (key ∷ names) (v ∷ values) h = ground (arith, visible-found names values)

  abbrev summarized : List Text → Read × World → HttpResponse × World
  summarized names r = (read_summary names r.0, r.1)

  get_request_lem :
      AreNames did sam_did
      → (names : List Text) → All (λ key. is_not_empty key ≡ true) names
      → 1 < length names
      → (e : Value) × (get_request out did names sam_did w
          ≡ (read_summary names (read_all (hidden names, e) (map some (found names))), w))
  unfolding get_request
  get_request_lem are names h several =
      let (e, looped) = read_loop_lem are 0 null [] names h in
      (
        e,
        ap (λ b. summarized names (read_loop out b did sam_did none_yet [] names w)) not_single
            ∙ ap (summarized names) looped
            ∙ ap (λ n. (read_summary names (read_all (n, e) (map some (found names))), w))
                (omega arith),
      )
    where
      not_single : num_eq (length names) 1 ≡ false
      not_single = ground arith

  hidden-contains :
      (key : Text) (names : List Text)
      → contains names key ≡ true
      → visible did sam_did key w.state ≡ none
      → num_eq (hidden names) 0 ≡ false
  unfolding contains
  hidden-contains key [] h e = cc
  hidden-contains key (n ∷ names) h e = elim (Bool-cases (n == key)) [
    | inl here ↦
        let same : n ≡ key = (eq_iff n key).0 here in
        rw (hidden, ap (λ x. visible did sam_did x w.state) same, e) (ground arith)
    | inr there ↦ ground (arith, hidden-contains key names (ground (arith, h, there)) e)
  ]

  -- A request for several keys is answered by a list of values exactly if these are the values that
  -- are visible under the keys, one for each. A single key without a visible value fails the whole
  -- request: the reply is an internal server error with some JSON text, also where the value is only
  -- missing. The request changes nothing. (The names are such as a command accepts, and no key is
  -- empty.)
  pub get_request-visible :
      AreNames did sam_did
      → (names values : List Text) → All (λ key. is_not_empty key ≡ true) names
      → 1 < length names
      → (((get_request out did names sam_did w).0 ≡ success (quoted_values names (map some values)))
          ↔ (map (λ key. visible did sam_did key w.state) names ≡ map some values))
        × ((key : Text)
            → contains names key ≡ true
            → visible did sam_did key w.state ≡ none
            → (e : Value) × ((get_request out did names sam_did w).0
                ≡ internal_server_error (quoted e)))
        × ((get_request out did names sam_did w).1 ≡ w)
  unfolding read_summary
  get_request-visible are names values h several =
      let (e, answered) = get_request_lem are names h several in
      rw answered (
        ground (arith, found-visible names, visible-found names values),
        λ key asked unseen. (e, ground (arith, several, hidden-contains key names asked unseen)),
        refl,
      )
