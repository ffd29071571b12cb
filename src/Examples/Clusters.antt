-- ===== src/Examples/Clusters.antt =====
-- Two peers that are configured for each other: peer 0 adds a todo, connects, and greets.
use nettverksprogrammering_p.Base.{
  ℕ, zero, suc, ◌≡◌, ◌≢◌, refl, List, [], ◌∷◌, In, first, true, arith, ℕ_discrete,
}
use nettverksprogrammering_p.Std.Text.{codes}
use nettverksprogrammering_p.Std.Text.Decimal.{to_decimal, to_decimal-injective}
use nettverksprogrammering_p.CrdtSync.{hello, state, serve_frames}
use nettverksprogrammering_p.CrdtSync.Exchange.{quiet}
use nettverksprogrammering_p.TodoApp.Cluster.Serves.{reads_as_served}
use nettverksprogrammering_p.TodoApp.Process.{Process, acted}
use nettverksprogrammering_p.TodoApp.Protocol.{ClientMessage}
use nettverksprogrammering_p.TodoApp.State
use nettverksprogrammering_p.TodoApp.State.{TodoState, todos}
use nettverksprogrammering_p.TodoApp.System.{update}
use nettverksprogrammering_p.TodoApp.Cluster.{
  Connection, Net, Works, Reach, init, start, later, request, work, connect, push,
}
use nettverksprogrammering_p.TodoApp.Cluster.Refines.{IsBehind, Reach-IsBehind}
use nettverksprogrammering_p.TodoApp.Cluster.Meeting.{IsTotal}
use nettverksprogrammering_p.TodoApp.Cluster.Rounds.{IsAlive}
use nettverksprogrammering_p.TodoApp.Cluster.Converges.{ShowsItsState, peers_converge}
use nettverksprogrammering_p.Examples.Codecs.{json, todo_codec, todo_codec-IsFaithful}
use nettverksprogrammering_p.Examples.Systems.{own_number, added}
use nettverksprogrammering_p.Examples.Networks.{adds_tea}

abbrev pub each_other : ℕ → List ℕ
each_other zero = 1 ∷ []
each_other (suc i) = 0 ∷ []

pub codec-IsTotal : IsTotal todo_codec
codec-IsTotal = record { bytes_of = λ msg. (msg, refl) }

abbrev pub begun : Net json todo_codec
begun = init json todo_codec to_decimal each_other own_number

abbrev pub with_todo : Net json todo_codec
with_todo = record begun { process = update begun.process 0 (acted json (begun.process 0) added) }

abbrev link : Connection (todo_codec.Bytes)
link = record { sender = 0; receiver = 1; is_open = true; frames = hello (to_decimal 0) ∷ [] }

abbrev linked : Net json todo_codec
linked = record with_todo { connections = link ∷ [] }

reach_linked : Reach json todo_codec to_decimal each_other own_number linked
reach_linked =
    later (later start (request 0 (ClientMessage.add (codes "tea")) adds_tea))
      (work (connect 0 1 first (λ c m. elim m [ ]) refl))

Reach-IsBehind_example : IsBehind json todo_codec to_decimal own_number linked
Reach-IsBehind_example =
    Reach-IsBehind json todo_codec todo_codec-IsFaithful to_decimal each_other own_number linked
      reach_linked

-- the state follows the greeting
abbrev pushing : Connection (todo_codec.Bytes)
pushing = record link { frames = hello (to_decimal 0) ∷ state added ∷ [] }

abbrev pushed : Net json todo_codec
pushed = record with_todo { connections = pushing ∷ [] }

reach_pushed : Reach json todo_codec to_decimal each_other own_number pushed
unfolding ℕ_discrete
reach_pushed = later reach_linked (work (push link [] [] refl refl refl))

reads_as_served_example :
    (cl : Net json todo_codec) × Works json todo_codec to_decimal each_other pushed cl
    × In (record pushing { frames = [] }) cl.connections
    × ((cl.process 1).app.inner
        ≡ (serve_frames todo_codec State.cvrdt
            (pushed.process 1).app.inner
            0
            (quiet todo_codec pushing.frames)).0)
    × ((k : ℕ) → ◌≢◌ {A = ℕ} 1 k → cl.process k ≡ pushed.process k)
reads_as_served_example =
    reads_as_served json todo_codec todo_codec-IsFaithful to_decimal each_other own_number pushed
      pushing reach_pushed first

zero-IsAlive : IsAlive (linked.process 0)
unfolding ℕ_discrete
zero-IsAlive = record { follows = λ e. cc; fits = omega arith }

one-IsAlive : IsAlive (linked.process 1)
unfolding ℕ_discrete
one-IsAlive = record { follows = λ e. cc; fits = omega arith }

abbrev Shows : Process json.Message → ℕ → Type 0
Shows = ShowsItsState json to_decimal own_number

peers_converge_example :
    (cl : Net json todo_codec) × Works json todo_codec to_decimal each_other linked cl
    × Shows (cl.process 0) 0
    × Shows (cl.process 1) 1
    × (todos (cl.process 0).app.inner ≡ todos (cl.process 1).app.inner)
peers_converge_example =
    peers_converge json todo_codec codec-IsTotal todo_codec-IsFaithful to_decimal each_other
      to_decimal-injective own_number linked 0 1 reach_linked (λ e. absurd (omega arith)) first
      first zero-IsAlive one-IsAlive
