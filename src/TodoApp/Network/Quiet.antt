-- ===== src/TodoApp/Network/Quiet.antt =====
-- What the browsers of two peers see when the network is quiet.
use nettverksprogrammering_p.Base.{ℕ, ◌≡◌, sym, ◌∙◌, ◌⊎◌, some, In}
use nettverksprogrammering_p.Std.Text.{Text}
use nettverksprogrammering_p.Std.Word.{dev}
use nettverksprogrammering_p.CrdtCore.Clock.{ReplicaId}
use nettverksprogrammering_p.TodoApp.Process.Shown.{IsAtRest, rest_shows_current}
use nettverksprogrammering_p.TodoApp.Server.{Json}
use nettverksprogrammering_p.TodoApp.State
use nettverksprogrammering_p.TodoApp.State.{TodoState, merge, todos, snapshot}
use nettverksprogrammering_p.TodoApp.State.Merge.{Same}
use nettverksprogrammering_p.TodoApp.State.Shown.{todos_congr}
use nettverksprogrammering_p.TodoApp.System.{wire}
use nettverksprogrammering_p.TodoApp.System.Agreement.{exchange_shows_alike, merged-HasCreators}
use nettverksprogrammering_p.TodoApp.Network.{Network, Reach}
use nettverksprogrammering_p.TodoApp.Network.Refines.{replicas, Reach-replicas, Reach-Run}

-- The state knows all that the other one has to say.
abbrev pub HasCaughtUp : TodoState → TodoState → Type 0
HasCaughtUp s other = Same (merge s (wire other)) s

module _ (json : Json) (peer_id : ℕ → Text) (distinct : (i j : ℕ) → peer_id i ≡ peer_id j → i ≡ j)
    (replica_id : ℕ → ReplicaId) where
  open json use {Message, to_string}

  -- Who has caught up shows what it would show after it merged the other's state once more.
  caught_up_shows :
      (net : Network Message)
      → Reach json peer_id replica_id net
      → (i j : ℕ) → HasCaughtUp (net.process i).app.inner (net.process j).app.inner
      → todos (merge (net.process i).app.inner (wire (net.process j).app.inner))
        ≡ todos (net.process i).app.inner
  caught_up_shows net r i j up =
      todos_congr (merge (net.process i).app.inner (wire (net.process j).app.inner))
        (net.process i).app.inner up
        (merged-HasCreators peer_id distinct replica_id (replicas net)
          (Reach-replicas json peer_id replica_id net r) i j)

  pub rest_shown :
      (net : Network Message)
      → Reach json peer_id replica_id net
      → (i : ℕ) (m : Message) → IsAtRest (net.process i)
      → to_string (snapshot (net.process i).app.inner) ≡ some m
      → ((net.process i).app.inner ≡ State.new (peer_id i) (replica_id i))
        ⊎ In m (net.process i).app.ws_tx
  rest_shown net r i m rest made =
      rest_shows_current json (State.new (peer_id i) (replica_id i)) dev (net.process i) m
        (Reach-Run json peer_id replica_id net r i) rest made

  -- Two peers of a reachable network whose peers have different names are at rest, each has caught up
  -- with the other, and their snapshots can be serialized. Then they hold the same list of todos, and
  -- the browsers of each have been sent the snapshot of it, unless the peer is as it was started.
  pub quiet_peers_show_alike :
      (net : Network Message)
      → Reach json peer_id replica_id net
      → (i j : ℕ) (m m' : Message) → IsAtRest (net.process i)
      → IsAtRest (net.process j)
      → HasCaughtUp (net.process i).app.inner (net.process j).app.inner
      → HasCaughtUp (net.process j).app.inner (net.process i).app.inner
      → to_string (snapshot (net.process i).app.inner) ≡ some m
      → to_string (snapshot (net.process j).app.inner) ≡ some m'
      → (todos (net.process i).app.inner ≡ todos (net.process j).app.inner)
        × (((net.process i).app.inner ≡ State.new (peer_id i) (replica_id i))
            ⊎ In m (net.process i).app.ws_tx)
        × (((net.process j).app.inner ≡ State.new (peer_id j) (replica_id j))
            ⊎ In m' (net.process j).app.ws_tx)
  quiet_peers_show_alike net r i j m m' rest_i rest_j up_i up_j made_i made_j = (
    sym (caught_up_shows net r i j up_i)
        ∙ exchange_shows_alike peer_id distinct replica_id (replicas net)
            (Reach-replicas json peer_id replica_id net r) i j
        ∙ caught_up_shows net r j i up_j,
    rest_shown net r i m rest_i made_i,
    rest_shown net r j m' rest_j made_j,
  )
