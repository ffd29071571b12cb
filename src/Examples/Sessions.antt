-- ===== src/Examples/Sessions.antt =====
-- A browser that connects before "tea" is added.
use nettverksprogrammering_p.Base.{◌≡◌, ◌≢◌, refl, inl, [], ◌∷◌, In, arith}
use nettverksprogrammering_p.Std.Text.{codes}
use nettverksprogrammering_p.Std.Word.{dev}
use nettverksprogrammering_p.TodoApp.Protocol.{ClientMessage}
use nettverksprogrammering_p.TodoApp.State
use nettverksprogrammering_p.TodoApp.Process.{Process, start, Follower, act, acted}
use nettverksprogrammering_p.TodoApp.Process.Shown.{IsAtRest}
use nettverksprogrammering_p.TodoApp.Process.Sessions.{
  streaming, ended, Session, subscribe, Moves, greet, Opened, later, move, step,
}
use nettverksprogrammering_p.TodoApp.Process.Sessions as Sessions
use nettverksprogrammering_p.TodoApp.Process.Sessions.Follows.{Progress, Opened-Progress}
use nettverksprogrammering_p.TodoApp.Process.Sessions.Catches.{browser_catches_up}
use nettverksprogrammering_p.Examples.Codecs.{json}
use nettverksprogrammering_p.Examples.Todos.{fresh, one, add-one}

abbrev serving : Process json.Message
serving = start json fresh

abbrev greeted : Session json.Message
greeted = record (subscribe json serving) {
  phase = streaming;
  sent = inl (State.snapshot fresh) ∷ [];
}

-- the task has applied the operation, and has not read the state
abbrev behind : Session json.Message
behind = record greeted { process = acted json serving one }

opened_behind : Opened json dev serving behind
opened_behind =
    later (later Sessions.start (move (greet (inl (State.snapshot fresh)) refl refl)))
      (step [] (act (ClientMessage.add (codes " tea ")) add-one) refl)

Opened-Progress_example : Progress json dev serving behind
Opened-Progress_example = Opened-Progress json dev serving behind opened_behind

still_streaming : behind.phase ≢ ended
still_streaming e = cc

still_following : behind.process.follower ≢ Follower.ended
still_following e = cc

browser_catches_up_example :
    (w : Session json.Message) × Moves json behind w
    × (w.process.app.inner ≡ one)
    × IsAtRest w.process
    × (w.phase ≡ streaming)
    × In (inl (State.snapshot one)) w.sent
browser_catches_up_example =
    browser_catches_up json dev serving behind (inl (State.snapshot one)) opened_behind
      still_streaming (omega arith) still_following (omega arith) refl refl
