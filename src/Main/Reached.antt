-- ===== src/Main/Reached.antt =====
-- The loop of database/src/main.rs takes the node through steps of Node.
use samaritan_db.Prelude.{refl, inl, inr, Option, none, some, List, Bool-cases, [], ◌∷◌}
use samaritan_db.Text.{Text}
use samaritan_db.Main.{is_invalid, round, main_loop, Round, stopped, continued, after_round}
use samaritan_db.Node.{Reach, then_step, executed, Reach-IsWellFormed}
use samaritan_db.Command.Parse.{parse}
use samaritan_db.Command.Raw.{pckg_raw_cmd}
use samaritan_db.Database.Invariant.Loads.{GivesMaps}
use samaritan_db.Database.World.{World, M}
use samaritan_db.Database.Init.{Outside, Task}
use samaritan_db.Database.Invariant.{IsWellFormed}

round-Reach :
    (out : Outside) (cmd : Option Text) (w : World) → Reach out w → Reach out (round out cmd w).1
unfolding round
round-Reach out none w r = r
round-Reach out (some cmd) w r = elim (Bool-cases (is_invalid (pckg_raw_cmd cmd))) [
  | inl no_command ↦ rw no_command r
  | inr typed ↦ rw typed (then_step r (executed (parse (pckg_raw_cmd cmd)) refl))
]

after_round-Reach :
    (out : Outside) (rest : M (List Task)) (d : Round × World)
    → ((w : World) → Reach out w → Reach out (rest w).1)
    → Reach out d.1
    → Reach out (after_round rest d.0 d.1).1
after_round-Reach out rest (continued tasks, w) h r = h w r
after_round-Reach out rest (stopped, w) h r = r

main_loop-Reach :
    (out : Outside) (cmds : List (Option Text)) (w : World)
    → Reach out w
    → Reach out (main_loop out cmds w).1
unfolding main_loop
main_loop-Reach out [] w r = r
main_loop-Reach out (cmd ∷ cmds) w r =
    after_round-Reach out (main_loop out cmds) (round out cmd w) (main_loop-Reach out cmds)
      (round-Reach out cmd w r)

-- Whatever lines the operator types, with words of any kind, no map of the node's database lists a
-- key twice when the loop has handled them. (The maps that the JSON library reads list no key twice.)
pub main_loop-IsWellFormed :
    (out : Outside) (cmds : List (Option Text)) (w : World)
    → GivesMaps out
    → Reach out w
    → IsWellFormed (main_loop out cmds w).1.state
main_loop-IsWellFormed out cmds w gives r =
    Reach-IsWellFormed out gives (main_loop-Reach out cmds w r)
