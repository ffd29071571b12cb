-- ===== src/TodoApp/System.antt =====
-- Replicas of the todo list that exchange their states: the browsers' operations, the pushes and
-- the deliveries interleave in any order. What a replica receives was sent at some time by one of
-- the replicas; it may be old, come twice, or never come.
pub mod Invariant
pub mod Sound
pub mod Fresh
pub mod Makers
pub mod Agreement
pub mod Refinement
pub mod EndToEnd
use nettverksprogrammering_p.Base.{ℕ, ◌≡◌, some, List, [], ◌∷◌, ite, ℕ_discrete, In}
use nettverksprogrammering_p.Std.Text.{Text}
use nettverksprogrammering_p.Std.Word.{dev}
use nettverksprogrammering_p.CrdtCore.Clock.{ReplicaId}
use nettverksprogrammering_p.TodoApp.Protocol.{ClientMessage}
use nettverksprogrammering_p.TodoApp.State.{TodoState, new, apply, merge}

-- What arrives of a state that is sent: `#[serde(skip)]` leaves the three local fields out, and the
-- receiver fills in their defaults.
unfoldable pub wire : TodoState → TodoState
wire s = record s { peer_id = []; replica_id = 0; next_local_id = 0 }

abbrev pub update {ℓ} : {A : Type ℓ} → (ℕ → A) → ℕ → A → ℕ → A
update f i a j = ite (ℕ_discrete i j) a (f j)

pub record System : Type 0 where
  pub replica : ℕ → TodoState
  pub sent : List TodoState

-- `apply_and_broadcast`, `push_state`, and `serve_incoming` at a `State` message.
pub data Step (s : System) : System → Type 0 where
  act :
      (i : ℕ) (msg : ClientMessage) {r : TodoState}
      → apply dev (s.replica i) msg ≡ some r
      → Step s (record s { replica = update s.replica i r })
  push : (i : ℕ) → Step s (record s { sent = wire (s.replica i) ∷ s.sent })
  receive :
      (i : ℕ) {x : TodoState}
      → In x s.sent
      → Step s (record s { replica = update s.replica i (merge (s.replica i) x) })

-- Each replica starts with `TodoState::new`, under its configured names.
abbrev pub init : (ℕ → Text) → (ℕ → ReplicaId) → System
init peer_id replica_id = record { replica = λ i. new (peer_id i) (replica_id i); sent = [] }

pub data Reach (peer_id : ℕ → Text) (replica_id : ℕ → ReplicaId) : System → Type 0 where
  start : Reach peer_id replica_id (init peer_id replica_id)
  later : {s t : System} → Reach peer_id replica_id s → Step s t → Reach peer_id replica_id t
