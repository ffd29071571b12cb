-- ===== src/TodoApp/Cluster/Spreads.antt =====
-- A predicate that the merge and the wire keep, of all states of a cluster; and one that holds of the
-- state of one peer, whatever it merges.
use nettverksprogrammering_p.Base.{ℕ, In, ite, ℕ_discrete}
use nettverksprogrammering_p.TodoApp.Network.{Network}
use nettverksprogrammering_p.TodoApp.Network.Refines.{task-inner}
use nettverksprogrammering_p.TodoApp.Process as Peer
use nettverksprogrammering_p.TodoApp.Process.{Process}
use nettverksprogrammering_p.TodoApp.Server.{Json}
use nettverksprogrammering_p.TodoApp.State.{TodoState, merge}
use nettverksprogrammering_p.TodoApp.System.{wire, update}
use nettverksprogrammering_p.TodoApp.System.Fresh.{update_all, In-all}
use nettverksprogrammering_p.TodoApp.Cluster.Tracks.{IsKept}

-- Merging with states of which `P` holds keeps `P`, and keeps `Q`.
pub record AreMerged (P Q : TodoState → Type 0) : Type 0 where
  pub wired : (a : TodoState) → P a → P (wire a)
  pub merged : (a x : TodoState) → P a → P x → P (merge a x)
  pub stays : (a x : TodoState) → Q a → P x → Q (merge a x)

module _ (json : Json) (P Q : TodoState → Type 0) (i : ℕ) where
  open json use {Message}

  pub record Spreads (net : Network Message) : Type 0 where
    pub processes : (k : ℕ) → P (net.process k).app.inner
    pub sent : (x : TodoState) → In x net.sent → P x
    pub at : Q (net.process i).app.inner

  at_update :
      (f : ℕ → Process Message) (k : ℕ) (o : Process Message)
      → (Q (f k).app.inner → Q o.app.inner)
      → Q (f i).app.inner
      → Q (update f k o i).app.inner
  at_update f k o h q = elim (ℕ_discrete k i) as (λ d. Q (ite d o (f i)).app.inner) [
    | yes p ↦ h (rw p q)
    | no p ↦ q
  ]

  pub Spreads-IsKept : AreMerged P Q → IsKept json Spreads
  Spreads-IsKept closed = record {
    by_task = λ net k {o} t h. record {
      processes =
          update_all (λ n. P n.app.inner) net.process k o h.processes
            (rw (task-inner json (net.process k) o t) (h.processes k));
      sent = h.sent;
      at = at_update net.process k o (λ q. rw (task-inner json (net.process k) o t) q) h.at;
    };
    by_receive = λ net k x m h.
        let o : Process Message = Peer.absorbed json (net.process k) x in
        record {
          processes =
              update_all (λ n. P n.app.inner) net.process k o h.processes
                (closed.merged (net.process k).app.inner x (h.processes k) (h.sent x m));
          sent = h.sent;
          at =
              at_update net.process k o
                (λ q. closed.stays (net.process k).app.inner x q (h.sent x m)) h.at;
        };
    by_push = λ net k h. record {
      processes = h.processes;
      sent =
          In-all P (wire (net.process k).app.inner) net.sent
            (closed.wired (net.process k).app.inner (h.processes k)) h.sent;
      at = h.at;
    };
  }
