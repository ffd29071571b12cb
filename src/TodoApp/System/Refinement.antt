-- ===== src/TodoApp/System/Refinement.antt =====
-- The loops of the program, run on one replica of the system.
use mathlib.Core.Option
use nettverksprogrammering_p.Base.{
  ℕ, ◌≡◌, ◌≢◌, refl, sym, ap, ◌∙◌, Option, some, List, [], ◌∷◌, arith, >>=-eq-some,
}
use nettverksprogrammering_p.Std.Text.{Text}
use nettverksprogrammering_p.Std.Word.{dev}
use nettverksprogrammering_p.CrdtCore.Clock.{ReplicaId}
use nettverksprogrammering_p.TodoApp.Protocol.{ClientMessage}
use nettverksprogrammering_p.TodoApp.Server.{Json, WsMessage, AppState, recv_task, count_up}
use nettverksprogrammering_p.TodoApp.Server.Broadcast.{
  requests, apply_all, progress, recv_task-apply_all,
}
use nettverksprogrammering_p.TodoApp.State.{TodoState, apply, cvrdt}
use nettverksprogrammering_p.TodoApp.System.{update, System, act, Reach, later}
use nettverksprogrammering_p.TodoApp.System.Invariant.{update_self}

-- From the first system to the second, replica `i` does the operations in their order, and each
-- returns.
pub data Acts (i : ℕ) : System → List ClientMessage → System → Type 0 where
  nothing : {s : System} → Acts i s [] s
  acting :
      {s t : System} {msg : ClientMessage} {msgs : List ClientMessage} {r : TodoState}
      → apply dev (s.replica i) msg ≡ some r
      → Acts i (record s { replica = update s.replica i r }) msgs t
      → Acts i s (msg ∷ msgs) t

-- By doing the operations, replica `i` of a reachable system comes to `r`, while the others and what
-- was sent stay.
pub record Performs (peer_id : ℕ → Text) (replica_id : ℕ → ReplicaId) (s : System) (i : ℕ)
    (msgs : List ClientMessage) (r : TodoState) : Type 0 where
  pub system : System
  pub acts : Acts i s msgs system
  pub reached : Reach peer_id replica_id system
  pub at_i : system.replica i ≡ r
  pub others : (j : ℕ) → i ≢ j → system.replica j ≡ s.replica j
  pub same_sent : system.sent ≡ s.sent

module _ (peer_id : ℕ → Text) (replica_id : ℕ → ReplicaId) where
  update_other : (f : ℕ → TodoState) (i j : ℕ) (r : TodoState) → i ≢ j → update f i r j ≡ f j
  update_other f i j r ne = ground arith

  stay :
      (s : System) (i : ℕ)
      → Reach peer_id replica_id s
      → Performs peer_id replica_id s i [] (s.replica i)
  stay s i r = record {
    system = s;
    acts = nothing;
    reached = r;
    at_i = refl;
    others = λ j _. refl;
    same_sent = refl;
  }

  -- One operation of replica `i`, and then what it does from there.
  after_update :
      (s : System) (i : ℕ) (x r : TodoState) (msg : ClientMessage) (msgs : List ClientMessage)
      → apply dev (s.replica i) msg ≡ some x
      → Performs peer_id replica_id (record s { replica = update s.replica i x }) i msgs r
      → Performs peer_id replica_id s i (msg ∷ msgs) r
  after_update s i x r msg msgs returns c = record {
    system = c.system;
    acts = acting returns c.acts;
    reached = c.reached;
    at_i = c.at_i;
    others = λ j ne. c.others j ne ∙ update_other s.replica i j x ne;
    same_sent = c.same_sent;
  }

  apply_all-Performs :
      (s : System) (i : ℕ) (told told' : Option ℕ) (msgs : List ClientMessage) (r : TodoState)
      → Reach peer_id replica_id s
      → apply_all dev (s.replica i, told) msgs ≡ some (r, told')
      → Performs peer_id replica_id s i msgs r
  unfolding apply_all
  apply_all-Performs s i told told' [] r h e =
      let same : s.replica i ≡ r = ground arith in rw (← same) (stay s i h)
  apply_all-Performs s i told told' (msg ∷ msgs) r h e =
      let (x, returns, rest) = >>=-eq-some (apply dev (s.replica i) msg) _ (r, told') e in
      let t : System = record s { replica = update s.replica i x } in
      after_update s i x r msg msgs returns (
        apply_all-Performs t i (count_up told) told' msgs r (later h (act i msg returns))
          (rw (update_self s.replica i x) rest))

  -- Where the receiving task of a browser returns, the state that it leaves is the one that replica
  -- `i` of a reachable system, with the state that the task found, comes to by the requests of the
  -- browser before it closes, each done once and in their order, in a run in which no other replica
  -- moves and nothing is sent.
  pub recv_task-Performs :
      (json : Json) (s : System) (i : ℕ) (app after : AppState json.Message)
      (msgs : List (WsMessage json.Message))
      → Reach peer_id replica_id s
      → app.inner ≡ s.replica i
      → recv_task json dev app msgs ≡ some after
      → Performs peer_id replica_id s i (requests json msgs) after.inner
  recv_task-Performs json s i app after msgs h same e =
      let ran : apply_all dev (progress json app) (requests json msgs)
          ≡ some (progress json after) =
        sym (recv_task-apply_all json dev msgs app) ∙ ap (Option.map (progress json)) e in
      apply_all-Performs s i app.sync_notify after.sync_notify (requests json msgs) after.inner h
        (rw (← same) ran)
