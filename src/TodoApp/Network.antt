-- ===== src/TodoApp/Network.antt =====
-- All peers together: the processes of TodoApp/Process, each with its tasks, and the states that the
-- sync layers have pushed. A process merges what was pushed at some time by one of the peers; the
-- connections deliver late, twice, or not at all.
pub mod Refines
pub mod Quiet
use nettverksprogrammering_p.Base.{ℕ, List, [], ◌∷◌, ite, ℕ_discrete, In}
use nettverksprogrammering_p.Std.Text.{Text}
use nettverksprogrammering_p.Std.Word.{dev}
use nettverksprogrammering_p.CrdtCore.Clock.{ReplicaId}
use nettverksprogrammering_p.TodoApp.Process as Peer
use nettverksprogrammering_p.TodoApp.Process.{Process, StepReceives}
use nettverksprogrammering_p.TodoApp.Server.{Json}
use nettverksprogrammering_p.TodoApp.State
use nettverksprogrammering_p.TodoApp.State.{TodoState}
use nettverksprogrammering_p.TodoApp.System.{wire, update}

pub record Network (Message : Type 0) : Type 0 where
  pub process : ℕ → Process Message
  pub sent : List TodoState

module _ (json : Json) where
  open json use {Message}

  -- A task of a process takes a step, or `push_state` sends the state of one.
  pub data Step (net : Network Message) : Network Message → Type 0 where
    local :
        (i : ℕ) {o : Process Message} (st : Peer.Step json dev (net.process i) o)
        → StepReceives json (λ x. In x net.sent) st
        → Step net (record net { process = update net.process i o })
    push : (i : ℕ) → Step net (record net { sent = wire (net.process i).app.inner ∷ net.sent })

  module _ (peer_id : ℕ → Text) (replica_id : ℕ → ReplicaId) where
    -- what `main` starts at each of the peers
    abbrev pub init : Network Message
    init = record {
      process = λ i. Peer.start json (State.new (peer_id i) (replica_id i));
      sent = [];
    }

    pub data Reach : Network Message → Type 0 where
      start : Reach init
      later : {net net' : Network Message} → Reach net → Step net net' → Reach net'
