-- ===== src/Examples/Processes.antt =====
-- Runs of one peer's process, and the start of the program.
use nettverksprogrammering_p.Base.{
  List, Bool, not, ◌==◌, Option, ite, ℕ, ◌≡◌, refl, inl, true, false, none, some, [], ◌∷◌,
}
use nettverksprogrammering_p.Std.HashMap.{nat_key}
use nettverksprogrammering_p.Std.Text.{Text, codes, text_key, text_discrete}
use nettverksprogrammering_p.Std.Word.{dev}
use nettverksprogrammering_p.CrdtSync.Node as Node
use nettverksprogrammering_p.TodoApp.Config.{Environment}
use nettverksprogrammering_p.TodoApp.Protocol.{ClientMessage}
use nettverksprogrammering_p.TodoApp.State
use nettverksprogrammering_p.TodoApp.Process.{Process, start, Run, Task}
use nettverksprogrammering_p.TodoApp.Process.Aborts.{aborted_is_not_shown}
use nettverksprogrammering_p.TodoApp.Process.Shown.{IsAtRest}
use nettverksprogrammering_p.TodoApp.Process.Stale.{newest_may_be_stale}
use nettverksprogrammering_p.Examples.Codecs.{json}
use nettverksprogrammering_p.Examples.Todos.{fresh, one, add-one, one_removed, two, add-two}

resynced : State.apply dev one_removed ClientMessage.resync ≡ some one_removed
unfolding State.apply
resynced = refl

-- A browser resyncs, another adds "milk", and the text that comes last lacks it.
newest_may_be_stale_example :
    (o : Process json.Message) × Run json dev (start json one_removed) o
    × (o ≡ record (start json one_removed) {
      app = record (start json one_removed).app {
        inner = two;
        ws_tx = inl (State.snapshot two) ∷ inl (State.snapshot one_removed) ∷ [];
        sync_notify = some 2;
      };
      unshown = false;
    })
newest_may_be_stale_example =
    newest_may_be_stale json dev (start json one_removed) ClientMessage.resync
      (ClientMessage.add (codes "milk")) one_removed two (inl (State.snapshot one_removed))
      (inl (State.snapshot two)) resynced add-two refl refl

fresh-IsAtRest : IsAtRest (start json fresh)
fresh-IsAtRest = record {
  owed = refl;
  taken = refl;
  merged = refl;
  queued = refl;
  waits = refl;
  unshown = refl;
}

-- "tea" is added, and its browser is gone before the task reads the state.
aborted_is_not_shown_example :
    (o : Process json.Message) × Run json dev (start json fresh) o
    × (o.app ≡ record (start json fresh).app { inner = one; sync_notify = some 1 })
    × ((o' : Process json.Message) → ¬ Task json o o')
aborted_is_not_shown_example =
    aborted_is_not_shown json dev (start json fresh) (ClientMessage.add (codes " tea ")) one
      fresh-IsAtRest add-one

abbrev configured : Environment
configured = record {
  peer_id = some (codes "peer-3");
  port = some (codes "8083");
  static_dir = none;
  sync_port = none;
  sync_peers = some (codes "127.0.0.1:9081, ,nowhere");
}

-- addresses are their ports here; only the first peer has one
abbrev parse_addr : Text → Option ℕ
parse_addr s = ite (text_discrete s (codes "127.0.0.1:9081")) (some 9081) none

-- every address can be bound once
abbrev free_once : List ℕ → ℕ → Bool
free_once [] port = true
free_once (held ∷ others) port = not (held == port)

abbrev http_port : ℕ
http_port = 8083

abbrev listen_port : ℕ
listen_port = 9083

abbrev serving_tasks : List (Node.Task ℕ)
serving_tasks =
    Node.Task.listener 9083 (codes "peer-3") ∷ Node.Task.outgoing 9081 (codes "peer-3") ∷ []
