-- ===== src/Examples/Changes.antt =====
-- A connection of a peer whose browser adds a todo after the connection has subscribed.
use nettverksprogrammering_p.Base.{map, ◌≡◌, ◌≢◌, refl, ◌++◌, true, false, some, [], ◌∷◌, arith}
use nettverksprogrammering_p.TodoApp.State.{TodoState, cvrdt}
use nettverksprogrammering_p.Std.Text.{codes}
use nettverksprogrammering_p.CrdtSync.{hello, state, Wake, Outcome, drive_outgoing}
use nettverksprogrammering_p.CrdtSync.Pushes.{pushes}
use nettverksprogrammering_p.CrdtSync.Changes.{
  waiting, ended, Outgoing, subscribe, first_push, notify, wake, push, Tasks, task, operate, Run,
  here, next, last_pushed, OnlyMerges,
}
use nettverksprogrammering_p.CrdtSync.Changes.Drives.{all_pushed, rounds, Run-drive_outgoing}
use nettverksprogrammering_p.CrdtSync.Changes.Pushed.{waiting-OnlyMerges, operations_get_pushed}
use nettverksprogrammering_p.Examples.Codecs.{todo_codec}
use nettverksprogrammering_p.Examples.Todos.{fresh, one}

-- the state is pushed, and the todo is added
abbrev changed : Outgoing TodoState
changed = record {
  state = one;
  untold = 1;
  changes = 0;
  phase = waiting;
  first = some fresh;
  turns = [];
}

reach_changed : Run cvrdt (subscribe fresh 0) changed
reach_changed = next (next here (task (first_push refl))) (operate one)

-- the change is pushed too
abbrev settled : Outgoing TodoState
settled = record changed { untold = 0; turns = (Wake.changed, one) ∷ [] }

reach_settled : Run cvrdt (subscribe fresh 0) settled
reach_settled =
    next (next (next reach_changed (task (notify refl))) (task (wake refl refl (omega arith))))
      (task (push Wake.changed refl))

waiting-OnlyMerges_example :
    (p : TodoState) × (last_pushed settled ≡ some p) × OnlyMerges cvrdt p settled.state
waiting-OnlyMerges_example = waiting-OnlyMerges cvrdt fresh 0 settled reach_settled refl refl refl

still_open : changed.phase ≢ ended
still_open e = cc

operations_get_pushed_example :
    (w : Outgoing TodoState) × Tasks changed w
    × (w.phase ≡ waiting)
    × (w.untold ≡ 0)
    × (w.changes ≡ 0)
    × (w.state ≡ one)
    × (p : TodoState) × (last_pushed w ≡ some p)
    × OnlyMerges cvrdt p w.state
operations_get_pushed_example =
    operations_get_pushed cvrdt fresh 0 changed reach_changed still_open (omega arith)

Run-drive_outgoing_example :
    (drive_outgoing todo_codec (codes "a") true fresh true (rounds todo_codec settled.turns)
      ≡ (hello (codes "a") ∷ map (λ x. state x) (all_pushed settled), Outcome.running))
    × ((x : TodoState) (w : Wake)
        → pushes todo_codec w ≡ false
        → drive_outgoing todo_codec
            (codes "a")
            true
            fresh
            true
            (rounds todo_codec settled.turns ++ (w, x, true) ∷ [])
          ≡ (hello (codes "a") ∷ map (λ x. state x) (all_pushed settled), Outcome.ended))
Run-drive_outgoing_example =
    Run-drive_outgoing todo_codec (λ msg. (msg, refl)) cvrdt fresh 0 settled fresh (codes "a")
      reach_settled refl
