-- ===== src/TodoApp/Network/Refines.antt =====
-- The steps of the network of processes, seen as steps of the system of replicas.
use nettverksprogrammering_p.Base.{ℕ, ◌≡◌, refl, fun_ext, arith, ite, ℕ_discrete, In}
use nettverksprogrammering_p.Std.Text.{Text}
use nettverksprogrammering_p.Std.Word.{dev}
use nettverksprogrammering_p.CrdtCore.Clock.{ReplicaId}
use nettverksprogrammering_p.TodoApp.Process as Peer
use nettverksprogrammering_p.TodoApp.Process.{Process, StepReceives}
use nettverksprogrammering_p.TodoApp.Server.{Json}
use nettverksprogrammering_p.TodoApp.State
use nettverksprogrammering_p.TodoApp.State.{TodoState}
use nettverksprogrammering_p.TodoApp.System as Replicas
use nettverksprogrammering_p.TodoApp.System.{System, update}
use nettverksprogrammering_p.TodoApp.Network.{Network, local, push, Reach, start, later}

module _ {Message : Type 0} where
  -- what the system of replicas sees of a network
  abbrev pub replicas : Network Message → System
  replicas net = record { replica = λ i. (net.process i).app.inner; sent = net.sent }

  inner-update :
      (f : ℕ → Process Message) (i : ℕ) (o : Process Message)
      → (λ j. (update f i o j).app.inner) ≡ update (λ j. (f j).app.inner) i o.app.inner
  inner-update f i o = fun_ext (λ j. ground arith)

pub update_same : {A : Type 0} (f : ℕ → A) (i : ℕ) → update f i (f i) ≡ f
update_same f i = fun_ext (λ j. ground arith)

-- A task leaves the state as it is.
pub task-inner :
    (json : Json) (n o : Process json.Message) → Peer.Task json n o → o.app.inner ≡ n.app.inner
task-inner json n o (Peer.read e) = refl
task-inner json n o (Peer.show before after x e) = refl
task-inner json n o (Peer.notify e) = refl
task-inner json n o (Peer.wake f e le) = refl
task-inner json n o (Peer.lag f lt) = refl
task-inner json n o (Peer.look f) = refl
task-inner json n o (Peer.tell x f) = refl

module _ (json : Json) (peer_id : ℕ → Text) (replica_id : ℕ → ReplicaId) where
  open json use {Message}

  -- A step of one process, seen in the system of replicas.
  replica_step :
      (s : System) (i : ℕ) (n o : Process Message) (st : Peer.Step json dev n o)
      → n.app.inner ≡ s.replica i
      → StepReceives json (λ x. In x s.sent) st
      → Replicas.Reach peer_id replica_id s
      → Replicas.Reach peer_id replica_id (record s { replica = update s.replica i o.app.inner })
  unfolding StepReceives
  replica_step s i n o (Peer.act msg e) same k r =
      Replicas.later r (Replicas.act i msg (rw (← same) e))
  replica_step s i n o (Peer.receive remote) same k r =
      rw same (Replicas.later r (Replicas.receive i k))
  replica_step s i n o (Peer.abort e) same k r = rw (same, update_same s.replica i) r
  replica_step s i n o (Peer.task t) same k r =
      rw (task-inner json n o t, same, update_same s.replica i) r

  -- However the tasks of all peers interleave, the states of the peers are those of a reachable
  -- system of replicas.
  pub Reach-replicas :
      (net : Network Message)
      → Reach json peer_id replica_id net
      → Replicas.Reach peer_id replica_id (replicas net)
  Reach-replicas net start = Replicas.start
  Reach-replicas net (later {net = old} r (push i)) =
      Replicas.later (Reach-replicas old r) (Replicas.push i)
  Reach-replicas net (later {net = old} r (local i {o} st k)) =
      rw (inner-update old.process i o)
        (replica_step (replicas old) i (old.process i) o st refl k (Reach-replicas old r))

  -- Each process of a reachable network has run since `main` started it.
  pub Reach-Run :
      (net : Network Message)
      → Reach json peer_id replica_id net
      → (j : ℕ)
      → Peer.Run json dev (Peer.start json (State.new (peer_id j) (replica_id j))) (net.process j)
  Reach-Run net start j = Peer.here
  Reach-Run net (later {net = old} r (push i)) j = Reach-Run old r j
  Reach-Run net (later {net = old} r (local i {o} st k)) j =
      elim (ℕ_discrete i j)
        as (λ d.
          Peer.Run json dev (Peer.start json (State.new (peer_id j) (replica_id j)))
            (ite d o (old.process j))) [
              | yes p ↦ rw (← p) (Peer.next (Reach-Run old r i) st)
              | no p ↦ Reach-Run old r j
            ]
