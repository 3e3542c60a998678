-- ===== src/Server/Loops.antt =====
-- What holds of the state after a request, if every command keeps it.
use samaritan_db.Prelude.{
  zip, inl, inr, Bool, Option, List, map, arith, num_eq, Option-cases, length, [], ◌∷◌,
}
use samaritan_db.Text.{Text}
use samaritan_db.Command.Execute.{execute}
use samaritan_db.Command.Parse.{parse}
use samaritan_db.Database.World.{World}
use samaritan_db.Database.State.{DbState}
use samaritan_db.Database.Init.{Outside}
use samaritan_db.Server.{
  tally, get_items, write_loop, read_loop, push_value, serve, Failures, handle_client_req,
  insert_items, ServerIncomingData, DbServerCommand, invalid_request, parse_request, run,
  tally_read, del_items, none_yet,
}
use samaritan_db.Command.{Command}

module _ (P : DbState → Type 0) (out : Outside)
    (keeps : (c : Command) (w : World) → P w.state → P (execute out c w).1.state) where
  run-keeps : (c : Command) (w : World) → P w.state → P (run out c w).1.state
  unfolding run
  run-keeps c w h = keeps (parse c) w h

  write_loop-keeps :
      (single : Bool) (f : Failures) (cmds : List Command) (w : World)
      → P w.state
      → P (write_loop out single f cmds w).1.state
  unfolding write_loop
  write_loop-keeps single f [] w h = h
  write_loop-keeps single f (c ∷ cmds) w h = ground (
    arith,
    run-keeps c w h,
    write_loop-keeps single (tally (run out c w).0 f) cmds (run out c w).1 (run-keeps c w h),
  )

  read_loop-keeps :
      (single : Bool) (did : Text) (sam_did : Option Text) (f : Failures)
      (values : List (Option Text)) (names : List Text) (w : World)
      → P w.state
      → P (read_loop out single did sam_did f values names w).1.state
  unfolding read_loop
  read_loop-keeps single did sam_did f values [] w h = h
  read_loop-keeps single did sam_did f values (key ∷ names) w h =
      let r = run out (Command.get did sam_did key) w in
      let after = run-keeps (Command.get did sam_did key) w h in
      ground (
        arith,
        after,
        read_loop-keeps single did sam_did (tally_read r.0 f) (push_value r.0 values) names r.1
            after,
      )

  serve-keeps : (c : DbServerCommand) (w : World) → P w.state → P (serve out c w).1.state
  unfolding serve
  serve-keeps (insert_items did names values sam_did) w h =
      write_loop-keeps (num_eq (length values) 1) none_yet
        (map (λ e. Command.set did sam_did e.0 e.1) (zip names values)) w h
  serve-keeps (get_items did names sam_did) w h =
      read_loop-keeps (num_eq (length names) 1) did sam_did none_yet [] names w h
  serve-keeps (del_items did names sam_did) w h =
      write_loop-keeps (num_eq (length names) 1) none_yet
        (map (λ key. Command.del did sam_did key) names) w h
  serve-keeps invalid_request w h = h

  pub handle_client_req-keeps :
      (input : ServerIncomingData) (w : World)
      → P w.state
      → P (handle_client_req out input w).1.state
  unfolding handle_client_req
  handle_client_req-keeps input w h =
      elim (Option-cases (parse_request input w.state.authenticated)) [
        | inl refused ↦ ground arith
        | inr (c, accepted) ↦ ground (arith, serve-keeps c w h)
      ]
