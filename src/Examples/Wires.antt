-- ===== src/Examples/Wires.antt =====
-- The bytes between two peers, at the run of the system where peer 0 has added a todo.
use nettverksprogrammering_p.Base.{inr, List, ℕ_discrete, arith, ◌≡◌, refl, true, some, [], ◌∷◌}
use nettverksprogrammering_p.Std.Text.{codes}
use nettverksprogrammering_p.Std.Text.Decimal.{to_decimal}
use nettverksprogrammering_p.Std.Word.{dev}
use nettverksprogrammering_p.CrdtCore.Traits.Order.{Below}
use nettverksprogrammering_p.CrdtSync.{
  hello, state, serve_frames, drive_outgoing, Turn, changed, lagged,
}
use nettverksprogrammering_p.CrdtSync.CatchUp.{connection_catches_up}
use nettverksprogrammering_p.CrdtSync.Exchange.{quiet}
use nettverksprogrammering_p.CrdtSync.Pushes.{pushed, pushed_turns}
use nettverksprogrammering_p.CrdtCore.Counter
use nettverksprogrammering_p.CrdtCore.Counter.{GCounter}
use nettverksprogrammering_p.CrdtCore.Counter.Merge.{GCounter-IsConvergent}
use nettverksprogrammering_p.TodoApp.Protocol.{ClientMessage}
use nettverksprogrammering_p.TodoApp.Server.{AppState, WsMessage, text, other, close, recv_task}
use nettverksprogrammering_p.TodoApp.Server.Broadcast.{requests}
use nettverksprogrammering_p.TodoApp.Server.Returns.{recv_task-returns}
use nettverksprogrammering_p.TodoApp.State.Total.{HasRoomFor}
use nettverksprogrammering_p.Std.HashMap
use nettverksprogrammering_p.Std.HashMap.{nat_key}
use nettverksprogrammering_p.Std.HashMap.Entries.{put, lookup}
use nettverksprogrammering_p.CrdtCore.VectorClock
use nettverksprogrammering_p.TodoApp.State
use nettverksprogrammering_p.TodoApp.State.{TodoState}
use nettverksprogrammering_p.TodoApp.System.{wire}
use nettverksprogrammering_p.TodoApp.System.Refinement.{Performs, recv_task-Performs}
use nettverksprogrammering_p.Examples.Codecs.{
  counter_codec, counter_codec-IsFaithful, counted_5, json,
}
use nettverksprogrammering_p.Examples.Systems.{own_number, s3, reached}

abbrev browser_app : AppState json.Message
browser_app = record { inner = s3.replica 1; ws_tx = []; sync_notify = some 0 }

abbrev from_browser : List (WsMessage json.Message)
from_browser =
    text (inr (ClientMessage.toggle (codes "0-1")))
    ∷ other
    ∷ text (inr (ClientMessage.add (codes "milk")))
    ∷ close
    ∷ []

room : HasRoomFor 5 browser_app.inner
unfolding VectorClock.get VectorClock.new VectorClock.merge State.merge State.new HashMap.new
    HashMap.get HashMap.insert lookup put ℕ_discrete wire State.store_todo
room = record { ticks = omega arith; counts = omega arith }

recv_task-returns_example :
    (after : AppState json.Message) × (recv_task json dev browser_app from_browser ≡ some after)
    × HasRoomFor 3 after.inner
unfolding requests
recv_task-returns_example = recv_task-returns json dev browser_app from_browser 3 room

handled :
    (after : AppState json.Message) × (recv_task json dev browser_app from_browser ≡ some after)
unfolding requests
handled =
    let (after, returns, _) = recv_task-returns json dev browser_app from_browser 3 room in
    (after, returns)

recv_task-Performs_example :
    Performs to_decimal own_number s3 1 (requests json from_browser) handled.0.inner
recv_task-Performs_example =
    recv_task-Performs to_decimal own_number json s3 1 browser_app handled.0 from_browser reached
      refl handled.1

-- The node is told of a change, and then has missed too many.
abbrev turns : List (Turn counter_codec)
turns = (changed, counted_5, true) ∷ (lagged, counted_5, true) ∷ []

connection_catches_up_example :
    Below GCounter-IsConvergent counted_5
      (serve_frames counter_codec Counter.cvrdt Counter.new 0 (
        quiet counter_codec
          (drive_outgoing counter_codec (codes "peer-2") true counted_5 true turns).0)).0
unfolding pushed pushed_turns
connection_catches_up_example =
    connection_catches_up GCounter-IsConvergent counter_codec (λ s. s) counter_codec-IsFaithful
      Counter.new counted_5 (codes "peer-2") turns (hello (codes "peer-2")) (state counted_5) refl
      refl tt (tt, (tt, tt))
