-- ===== src/TodoApp/Cluster/Requests.antt =====
-- Two peers that are configured for each other, after a request of a browser of the first.
use nettverksprogrammering_p.Base.{ℕ, ◌≡◌, ◌≢◌, refl, some, List, In, ite, ℕ_discrete}
use nettverksprogrammering_p.Std.Text.{Text, text_key}
use nettverksprogrammering_p.Std.Word.{dev}
use nettverksprogrammering_p.CrdtCore.Clock.{ReplicaId}
use nettverksprogrammering_p.CrdtSync.{Codec}
use nettverksprogrammering_p.CrdtSync.Exchange.{IsFaithful}
use nettverksprogrammering_p.TodoApp.Protocol.{TodoItem, ClientMessage}
use nettverksprogrammering_p.TodoApp.Process.{Process, acted}
use nettverksprogrammering_p.TodoApp.Server.{Json}
use nettverksprogrammering_p.TodoApp.State.{TodoState, apply, todos}
use nettverksprogrammering_p.TodoApp.State.Lasting.{
  Allows, Lists, merge-Allows, merge-Lists, HasRemoved, merge-HasRemoved, HasCompleted,
  merge-HasCompleted,
}
use nettverksprogrammering_p.TodoApp.System.{wire, update}
use nettverksprogrammering_p.TodoApp.System.Fresh.{update_all}
use nettverksprogrammering_p.TodoApp.System.Invariant.{update_self}
use nettverksprogrammering_p.TodoApp.Cluster.{Net, Works, Reach, later, request}
use nettverksprogrammering_p.TodoApp.Cluster.Converges.{ShowsItsState, peers_converge}
use nettverksprogrammering_p.TodoApp.Cluster.Meeting.{IsTotal}
use nettverksprogrammering_p.TodoApp.Cluster.Refines.{Reach-IsBehind}
use nettverksprogrammering_p.TodoApp.Cluster.Rounds.{IsAlive, IsAlive-as}
use nettverksprogrammering_p.TodoApp.Cluster.Spreads.{AreMerged, Spreads, Spreads-IsKept}
use nettverksprogrammering_p.TodoApp.Cluster.Tracks.{Tracks, Works-Tracks}

pub item-AreMerged : (item : TodoItem) → AreMerged (Allows item) (Lists item)
unfolding wire
item-AreMerged item = record {
  wired =
      λ a h. record { kept = h.kept; open_flag = h.open_flag; text = h.text; creator = h.creator };
  merged = merge-Allows item;
  stays = merge-Lists item;
}

abbrev pub Anything : TodoState → Type 0
Anything s = Unit {0}

pub removed-AreMerged : (id : Text) → AreMerged Anything (HasRemoved id)
removed-AreMerged id = record {
  wired = λ a h. tt;
  merged = λ a x h k. tt;
  stays = λ a x h k. merge-HasRemoved a x id h;
}

pub completed-AreMerged : (id : Text) → AreMerged Anything (HasCompleted id)
completed-AreMerged id = record {
  wired = λ a h. tt;
  merged = λ a x h k. tt;
  stays = λ a x h k. merge-HasCompleted a x id h;
}

module _ (json : Json) where
  open json use {Message, to_string}

  module _ (codec : Codec TodoState) where
    -- A request of a browser of peer `i` has led to the state `s`, and its snapshot is owed.
    abbrev pub asked : Net json codec → ℕ → TodoState → Net json codec
    asked cl i s = record cl { process = update cl.process i (acted json (cl.process i) s) }

  asked-IsAlive :
      (f : ℕ → Process Message) (i : ℕ) (s : TodoState) (k : ℕ)
      → IsAlive (f k)
      → IsAlive (update f i (acted json (f i) s) k)
  asked-IsAlive f i s k h =
      elim (ℕ_discrete i k) as (λ d. IsAlive (ite d (acted json (f i) s) (f k))) [
        | yes p ↦ IsAlive-as (f i) (acted json (f i) s) refl refl (rw p h)
        | no p ↦ h
      ]

module _ (json : Json) (codec : Codec TodoState) (total : IsTotal codec)
    (faithful : IsFaithful codec wire) (peer_id : ℕ → Text) (peers : ℕ → List ℕ)
    (distinct : (i j : ℕ) → peer_id i ≡ peer_id j → i ≡ j) (replica_id : ℕ → ReplicaId) where
  open json use {Message, to_string}

  -- Two peers list the same todos and are at rest, and `Q` holds of the state of the first.
  pub record Agreed (Q : TodoState → Type 0) (from : Net json codec) (i j : ℕ) : Type 0 where
    pub result : Net json codec
    pub run : Works json codec peer_id peers from result
    pub shows_i : ShowsItsState json peer_id replica_id (result.process i) i
    pub shows_j : ShowsItsState json peer_id replica_id (result.process j) j
    pub alike : todos (result.process i).app.inner ≡ todos (result.process j).app.inner
    pub at : Q (result.process i).app.inner

  -- The two peers of a request come to agree, and what it left in the state of the first is kept.
  pub agree :
      (P Q : TodoState → Type 0) (closed : AreMerged P Q) (cl : Net json codec) (i j : ℕ)
      (msg : ClientMessage) (s : TodoState) (ss : List TodoState)
      → Reach json codec peer_id peers replica_id cl
      → i ≢ j
      → In j (peers i)
      → In i (peers j)
      → IsAlive (cl.process i)
      → IsAlive (cl.process j)
      → apply dev (cl.process i).app.inner msg ≡ some s
      → Tracks json codec (Spreads json P Q i) (asked json codec cl i s)
      → Agreed Q (asked json codec cl i s) i j
  agree P Q closed cl i j msg s ss r ne ij ji alive_i alive_j e tracked =
      let from : Net json codec = asked json codec cl i s in
      let (last, run, shows_i, shows_j, alike) =
        peers_converge json codec total faithful peer_id peers distinct replica_id from i j
          (later r (request i msg e)) ne ij ji (asked-IsAlive json cl.process i s i alive_i)
          (asked-IsAlive json cl.process i s j alive_j) in
      let kept =
        Works-Tracks json codec faithful (Spreads json P Q i) (Spreads-IsKept json P Q i closed)
          peer_id peers tracked run in
      record {
        result = last;
        run = run;
        shows_i = shows_i;
        shows_j = shows_j;
        alike = alike;
        at = kept.holds.at;
      }

  -- `P` holds of all states of a cluster, and `P` and `Q` of what a request leaves.
  pub asked-Tracks :
      (P Q : TodoState → Type 0) (cl : Net json codec) (i : ℕ) (s : TodoState)
      (r : Reach json codec peer_id peers replica_id cl)
      → ((k : ℕ) → P (cl.process k).app.inner)
      → ((x : TodoState)
          → In x (Reach-IsBehind json codec faithful peer_id peers replica_id cl r).ss
          → P x)
      → P s
      → Q s
      → Tracks json codec (Spreads json P Q i) (asked json codec cl i s)
  asked-Tracks P Q cl i s r all sent own q =
      let b = Reach-IsBehind json codec faithful peer_id peers replica_id cl r in
      let o : Process Message = acted json (cl.process i) s in
      record {
        ss = b.ss;
        holds = record {
          processes = update_all (λ n. P n.app.inner) cl.process i o all own;
          sent = sent;
          at = rw (update_self cl.process i o) q;
        };
        carried = b.carried;
      }
