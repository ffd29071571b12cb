-- ===== src/Examples/Networks.antt =====
-- A run of two peers: peer 0 adds a todo, shows it, and pushes; peer 1 merges it and shows it.
use nettverksprogrammering_p.Base.{
  ℕ, ◌≡◌, refl, ◌⊎◌, inl, [], ◌∷◌, some, In, first, ℕ_discrete, arith,
}
use nettverksprogrammering_p.Std.HashMap
use nettverksprogrammering_p.Std.HashMap.{nat_key}
use nettverksprogrammering_p.Std.HashMap.Entries.{put, lookup}
use nettverksprogrammering_p.Std.HashSet
use nettverksprogrammering_p.Std.Text.{codes, text_key, text_discrete, trim}
use nettverksprogrammering_p.Std.Text.Decimal.{to_decimal, digits, to_decimal-injective}
use nettverksprogrammering_p.Std.Word.{dev, add as add_word}
use nettverksprogrammering_p.CrdtCore.GSet
use nettverksprogrammering_p.CrdtCore.VectorClock
use nettverksprogrammering_p.TodoApp.Protocol.{ClientMessage}
use nettverksprogrammering_p.TodoApp.Process.{
  Process, StepReceives, Follower, send, with_inner, encode, act, read, show, task, receive, notify,
  wake, look, tell,
}
use nettverksprogrammering_p.TodoApp.Process
use nettverksprogrammering_p.TodoApp.Process.Shown.{IsAtRest}
use nettverksprogrammering_p.TodoApp.State
use nettverksprogrammering_p.TodoApp.System
use nettverksprogrammering_p.TodoApp.System.{wire, update}
use nettverksprogrammering_p.TodoApp.Network.{Network, init, Reach, start, later, local, push}
use nettverksprogrammering_p.TodoApp.Network.Refines.{replicas, Reach-replicas}
use nettverksprogrammering_p.TodoApp.Network.Quiet.{HasCaughtUp, quiet_peers_show_alike}
use nettverksprogrammering_p.Examples.Codecs.{json}
use nettverksprogrammering_p.Examples.Systems.{own_number, added}

abbrev begun : Network json.Message
begun = init json to_decimal own_number

abbrev moved : Network json.Message → ℕ → Process json.Message → Network json.Message
moved net i o = record net { process = update net.process i o }

abbrev acted : Process json.Message
acted =
    let at_start : Process json.Message = Process.start json (State.new (to_decimal 0) 0) in
    record at_start { app = record at_start.app { inner = added; sync_notify = some 1 }; owed = 1 }

abbrev has_read : Process json.Message
has_read = record acted { owed = 0; taken = added ∷ [] }

abbrev has_shown : Process json.Message
has_shown = record has_read { app = send json has_read.app added; taken = [] }

pub adds_tea :
    State.apply dev (State.new (to_decimal 0) 0) (ClientMessage.add (codes "tea")) ≡ some added
unfolding State.apply State.add State.tick State.new_todo_id State.format_id State.new
    State.store_todo trim to_decimal digits VectorClock.increment VectorClock.new HashMap.new
    HashMap.get HashMap.insert lookup put add_word GSet.insert HashSet.insert GSet.new
adds_tea = refl

abbrev shown_at_0 : Network json.Message
shown_at_0 = moved (moved (moved begun 0 acted) 0 has_read) 0 has_shown

reach_shown_at_0 : Reach json to_decimal own_number shown_at_0
unfolding ℕ_discrete StepReceives
reach_shown_at_0 =
    later
      (later (later start (local 0 (act (ClientMessage.add (codes "tea")) adds_tea) tt))
        (local 0 (task (read refl)) tt))
      (local 0 (task (show [] [] added refl)) tt)

abbrev pushed : Network json.Message
pushed = record shown_at_0 { sent = wire added ∷ [] }

reach_pushed : Reach json to_decimal own_number pushed
unfolding ℕ_discrete
reach_pushed = later reach_shown_at_0 (push 0)

abbrev received : Process json.Message
received =
    let at_start : Process json.Message = Process.start json (State.new (to_decimal 1) 1) in
    record at_start {
      app = with_inner json at_start.app (State.merge at_start.app.inner (wire added));
      merged = 1;
    }

abbrev notified : Process json.Message
notified = record received { merged = 0; queued = 1 }

abbrev woken_up : Process json.Message
woken_up = record notified { queued = 0; follower = Follower.woken }

abbrev looked : Process json.Message
looked = record woken_up { follower = Follower.holding woken_up.app.inner }

abbrev told : Process json.Message
told = record looked { app = send json looked.app looked.app.inner; follower = Follower.waiting }

abbrev quiet : Network json.Message
quiet =
    moved (moved (moved (moved (moved pushed 1 received) 1 notified) 1 woken_up) 1 looked) 1 told

reach_quiet : Reach json to_decimal own_number quiet
unfolding ℕ_discrete StepReceives
reach_quiet =
    later
      (later
        (later
          (later (later reach_pushed (local 1 (receive (wire added)) first))
            (local 1 (task (notify refl)) tt))
          (local 1 (task (wake refl refl (omega arith))) tt))
        (local 1 (task (look refl)) tt))
      (local 1 (task (tell looked.app.inner refl)) tt)

sender_idle : IsAtRest (quiet.process 0)
unfolding ℕ_discrete
sender_idle = record {
  owed = refl;
  taken = refl;
  merged = refl;
  queued = refl;
  waits = refl;
  unshown = refl;
}

receiver_idle : IsAtRest (quiet.process 1)
unfolding ℕ_discrete
receiver_idle = record {
  owed = refl;
  taken = refl;
  merged = refl;
  queued = refl;
  waits = refl;
  unshown = refl;
}

caught_up_0 : HasCaughtUp (quiet.process 0).app.inner (quiet.process 1).app.inner
unfolding ℕ_discrete State.merge wire State.new State.store_todo GSet.merge GSet.insert GSet.new
    HashSet.insert HashSet.extend VectorClock.merge VectorClock.new VectorClock.get HashMap.new
    HashMap.get HashMap.insert HashMap.contains_key HashMap.keys lookup put text_discrete
caught_up_0 = (λ id. refl, (λ id. refl, (λ id. refl, (λ id. refl, (λ id. refl, λ r. refl)))))

caught_up_1 : HasCaughtUp (quiet.process 1).app.inner (quiet.process 0).app.inner
unfolding ℕ_discrete State.merge wire State.new State.store_todo GSet.merge GSet.insert GSet.new
    HashSet.insert HashSet.extend VectorClock.merge VectorClock.new VectorClock.get HashMap.new
    HashMap.get HashMap.insert HashMap.contains_key HashMap.keys lookup put text_discrete
caught_up_1 = (λ id. refl, (λ id. refl, (λ id. refl, (λ id. refl, (λ id. refl, λ r. refl)))))

quiet_peers_show_alike_example :
    (State.todos (quiet.process 0).app.inner ≡ State.todos (quiet.process 1).app.inner)
    × (((quiet.process 0).app.inner ≡ State.new (to_decimal 0) 0)
        ⊎ In (inl (State.snapshot (quiet.process 0).app.inner)) (quiet.process 0).app.ws_tx)
    × (((quiet.process 1).app.inner ≡ State.new (to_decimal 1) 1)
        ⊎ In (inl (State.snapshot (quiet.process 1).app.inner)) (quiet.process 1).app.ws_tx)
quiet_peers_show_alike_example =
    quiet_peers_show_alike json to_decimal to_decimal-injective own_number quiet reach_quiet 0 1
      (inl (State.snapshot (quiet.process 0).app.inner))
      (inl (State.snapshot (quiet.process 1).app.inner)) sender_idle receiver_idle caught_up_0
      caught_up_1 refl refl

Reach-replicas_example : System.Reach to_decimal own_number (replicas quiet)
Reach-replicas_example = Reach-replicas json to_decimal own_number quiet reach_quiet
