-- ===== src/Examples/Syncs.antt =====
-- Connections, the server and its configuration.
use mathlib.Core.Option
use nettverksprogrammering_p.Base.{◌≡◌, true, none, some, List, [], ◌∷◌, map, length, ◌⊎◌, inl, inr}
use nettverksprogrammering_p.Std.HashMap.{nat_key}
use nettverksprogrammering_p.Std.Text.{codes}
use nettverksprogrammering_p.Std.Word.{dev}
use nettverksprogrammering_p.CrdtCore.Traits.Delivery.{merge_all}
use nettverksprogrammering_p.CrdtCore.Traits.Order.{Below, Below-refl}
use nettverksprogrammering_p.CrdtCore.Counter
use nettverksprogrammering_p.CrdtCore.Counter.{GCounter}
use nettverksprogrammering_p.CrdtCore.Counter.Merge.{GCounter-IsConvergent}
use nettverksprogrammering_p.CrdtSync.{
  SyncMessage, hello, state, Outcome, Frame, bytes, broken, changed, ticked, closed, Turn,
  serve_frames, drive_outgoing,
}
use nettverksprogrammering_p.CrdtSync.Incoming.{Arrives, serve_frames-keeps}
use nettverksprogrammering_p.CrdtSync.Exchange.{quiet, exchange_merges}
use nettverksprogrammering_p.CrdtSync.Pushes.{pushed}
use nettverksprogrammering_p.TodoApp.Protocol.{ServerMessage, ClientMessage}
use nettverksprogrammering_p.TodoApp.Server.{
  Json, WsMessage, text, other, close, AppState, recv_task, follow_remote, Received, update, lagged,
}
use nettverksprogrammering_p.TodoApp.Server
use nettverksprogrammering_p.TodoApp.Server.Broadcast.{
  requests, apply_all, progress, recv_task-apply_all,
}
use nettverksprogrammering_p.TodoApp.Config.{Environment}
use nettverksprogrammering_p.Examples.Codecs.{
  json, counter_codec, counter_codec-IsFaithful, counted_5,
}
use nettverksprogrammering_p.Examples.Todos.{fresh}

abbrev arriving : List ((GCounter → GCounter) × Frame (SyncMessage GCounter))
arriving =
    (λ s. s, bytes (hello (codes "peer-2")))
    ∷ (λ s. s, bytes (state counted_5))
    ∷ (λ s. s, broken)
    ∷ []

others_wait : (s : GCounter) → Unit {0} → Unit {0} × Below GCounter-IsConvergent s s
others_wait s v = (v, Below-refl GCounter-IsConvergent s)

serve_frames-keeps_example :
    Unit {0}
    × Below GCounter-IsConvergent Counter.new
        (serve_frames counter_codec Counter.cvrdt Counter.new 0 arriving).0
    × ((remote : GCounter)
        → Arrives counter_codec GCounter-IsConvergent remote arriving
        → Below GCounter-IsConvergent remote
            (serve_frames counter_codec Counter.cvrdt Counter.new 0 arriving).0)
serve_frames-keeps_example =
    serve_frames-keeps counter_codec GCounter-IsConvergent Counter.new 0 arriving tt
      ((others_wait, λ r e. tt), ((others_wait, λ r e. tt), ((others_wait, tt), tt)))

abbrev turns : List (Turn counter_codec)
turns = (changed, counted_5, true) ∷ (ticked, counted_5, true) ∷ (closed, counted_5, true) ∷ []

exchange_merges_example :
    serve_frames counter_codec Counter.cvrdt Counter.new 0 (
      quiet counter_codec
        (drive_outgoing counter_codec (codes "peer-2") true Counter.new true turns).0)
    ≡ (
      merge_all Counter.cvrdt Counter.new
          (map (λ s. s) (pushed counter_codec (codes "peer-2") true Counter.new true turns)),
      length (pushed counter_codec (codes "peer-2") true Counter.new true turns),
      Outcome.ended,
    )
exchange_merges_example =
    exchange_merges counter_codec (λ s. s) counter_codec-IsFaithful Counter.cvrdt Counter.new
      (codes "peer-2") true Counter.new true turns

abbrev received : List (WsMessage (ServerMessage ⊎ ClientMessage))
received =
    text (inr (ClientMessage.add (codes "tea")))
    ∷ other
    ∷ text (inl (ServerMessage.snapshot [] []))
    ∷ close
    ∷ text (inr ClientMessage.resync)
    ∷ []

recv_task-apply_all_example :
    Option.map (progress json) (recv_task json dev (Server.new json fresh) received)
    ≡ apply_all dev (progress json (Server.new json fresh)) (requests json received)
recv_task-apply_all_example = recv_task-apply_all json dev received (Server.new json fresh)

abbrev high_port : Environment
high_port = record {
  peer_id = some (codes "peer-3");
  port = some (codes "65000");
  static_dir = none;
  sync_port = some (codes "9001");
  sync_peers = none;
}
