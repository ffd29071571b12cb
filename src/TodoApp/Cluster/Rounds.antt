-- ===== src/TodoApp/Cluster/Rounds.antt =====
-- Two peers that are configured for each other push their states in turn.
use nettverksprogrammering_p.Base.{
  ℕ, ◌≤◌, ◌≡◌, ◌≢◌, refl, sym, ap, ◌∙◌, List, [], ◌∷◌, ◌++◌, In, false, first, In-middle,
}
use nettverksprogrammering_p.Std.Text.{Text}
use nettverksprogrammering_p.CrdtCore.Clock.{ReplicaId}
use nettverksprogrammering_p.CrdtCore.Traits.Delivery.{merge_all}
use nettverksprogrammering_p.CrdtSync.{Codec}
use nettverksprogrammering_p.CrdtSync.Exchange.{IsFaithful, done}
use nettverksprogrammering_p.TodoApp.Process.{Process, Follower, channel_capacity}
use nettverksprogrammering_p.TodoApp.Server.{Json}
use nettverksprogrammering_p.TodoApp.State.{TodoState, merge, cvrdt}
use nettverksprogrammering_p.TodoApp.System.{wire}
use nettverksprogrammering_p.TodoApp.Cluster.{Connection, Net, Works, Reach}
use nettverksprogrammering_p.TodoApp.Cluster.Refines.{Reach-IsBehind}
use nettverksprogrammering_p.TodoApp.Cluster.Links.{
  Works-trans, works-Reach, HasDelivered, read_all,
}
use nettverksprogrammering_p.TodoApp.Cluster.Meeting.{IsTotal, get-Linked, push_and_read}

-- The follower waits or works, and its channel has not lost an update.
pub record IsAlive {Message : Type 0} (n : Process Message) : Type 0 where
  pub follows : n.follower ≢ Follower.ended
  pub fits : n.queued ≤ channel_capacity

pub IsAlive-as :
    {Message : Type 0} (n o : Process Message)
    → o.follower ≡ n.follower
    → o.queued ≡ n.queued
    → IsAlive n
    → IsAlive o
IsAlive-as n o f q h = record { follows = rw f h.follows; fits = rw q h.fits }

merge_all-snoc :
    (s x : TodoState) (xs : List TodoState)
    → merge_all cvrdt s (xs ++ x ∷ []) ≡ merge (merge_all cvrdt s xs) x
unfolding merge_all
merge_all-snoc s x [] = refl
merge_all-snoc s x (y ∷ ys) = merge_all-snoc (merge s y) x ys

module _ (json : Json) (codec : Codec TodoState) (total : IsTotal codec)
    (faithful : IsFaithful codec wire) (peer_id : ℕ → Text) (peers : ℕ → List ℕ)
    (distinct : (i j : ℕ) → peer_id i ≡ peer_id j → i ≡ j) (replica_id : ℕ → ReplicaId) where
  open json use {Message, to_string}
  open codec use {Bytes}

  -- Peer `j` has merged the states, and the others are as they were.
  record HasMerged (cl cl' : Net json codec) (j : ℕ) (xs : List TodoState) : Type 0 where
    inner : (cl'.process j).app.inner ≡ merge_all cvrdt (cl.process j).app.inner xs
    same_follower : (cl'.process j).follower ≡ (cl.process j).follower
    same_queued : (cl'.process j).queued ≡ (cl.process j).queued
    now_shown : (x : TodoState) → In x xs → (cl'.process j).unshown ≡ false
    others : (k : ℕ) → j ≢ k → cl'.process k ≡ cl.process k

  delivered-HasMerged :
      (cl cl' : Net json codec) (c : Connection Bytes) (j : ℕ) (xs : List TodoState)
      → c.receiver ≡ j
      → HasDelivered json codec peer_id peers cl cl' c xs
      → HasMerged cl cl' j xs
  delivered-HasMerged cl cl' c j xs e h = record {
    inner = rw (← e) h.inner;
    same_follower = rw (← e) h.same_follower;
    same_queued = rw (← e) h.same_queued;
    now_shown = rw (← e) h.now_shown;
    others = λ k ne. h.others k (rw e ne);
  }

  -- The two have met: `i` has merged the state of `j`, and after that `j` that of `i`.
  pub record Meeting (cl : Net json codec) (i j : ℕ) : Type 0 where
    pub between : Net json codec
    pub begun : Works json codec peer_id peers cl between
    pub result : Net json codec
    pub ended : Works json codec peer_id peers between result
    pub before_i : TodoState
    pub at_i : (between.process i).app.inner ≡ merge before_i (wire (between.process j).app.inner)
    pub at_j :
        (result.process j).app.inner
        ≡ merge (between.process j).app.inner (wire (between.process i).app.inner)
    pub same_i : result.process i ≡ between.process i
    pub alive_i : IsAlive (result.process i)
    pub alive_j : IsAlive (result.process j)
    pub shown_i : (result.process i).unshown ≡ false
    pub shown_j : (result.process j).unshown ≡ false

  -- The rounds of the meeting: what is on its way to `j` is read; `j` pushes, and `i` reads all; `i`
  -- pushes, and `j` reads that.
  pub meet :
      (cl : Net json codec) (i j : ℕ)
      → Reach json codec peer_id peers replica_id cl
      → i ≢ j
      → In j (peers i)
      → In i (peers j)
      → IsAlive (cl.process i)
      → IsAlive (cl.process j)
      → Meeting cl i j
  unfolding merge_all
  meet cl i j r ne ij ji alive_i alive_j =
      let a = get-Linked json codec total faithful peer_id peers cl i j ij in
      let b = get-Linked json codec total faithful peer_id peers a.result j i ji in
      let start : Works json codec peer_id peers cl b.result =
        Works-trans json codec peer_id peers a.run b.run in
      let behind =
        Reach-IsBehind json codec faithful peer_id peers replica_id b.result
          (works-Reach json codec peer_id peers replica_id r start) in
      let c : Connection Bytes = a.link in
      let d : Connection Bytes = b.link in
      let to_j = behind.carried c (b.kept c a.is_there) in
      let to_i = behind.carried d b.is_there in
      let apart : d.sender ≢ c.sender = λ e. ne (sym a.is_link.from ∙ sym e ∙ b.is_link.from) in
      let r1 =
        read_all json codec peer_id peers c.frames to_j.states b.result c to_j.reads
          (b.kept c a.is_there) refl in
      let c0 : Connection Bytes = record c { frames = [] } in
      let r2 =
        push_and_read json codec total faithful peer_id peers r1.result d to_i.states
          (r1.delivered.kept d apart b.is_there) b.is_link.is_open to_i.reads in
      let r3 =
        push_and_read json codec total faithful peer_id peers r2.result c0 []
          (r2.delivered.kept c0 (λ e. apart (sym e)) r1.delivered.drained) a.is_link.is_open done in
      let g1 = delivered-HasMerged b.result r1.result c j to_j.states a.is_link.to r1.delivered in
      let g2 = delivered-HasMerged r1.result r2.result d i _ b.is_link.to r2.delivered in
      let g3 = delivered-HasMerged r2.result r3.result c0 j _ a.is_link.to r3.delivered in
      let mid : Net json codec = r2.result in
      let same : b.result.process ≡ cl.process = b.same_process ∙ a.same_process in
      let at_once : (k : ℕ) → j ≢ k → r1.result.process k ≡ cl.process k =
        λ k other. g1.others k other ∙ ap (λ f. f k) same in
      let en : j ≢ i = λ e. ne (sym e) in
      record {
        between = mid;
        begun =
            Works-trans json codec peer_id peers (Works-trans json codec peer_id peers start r1.run)
              r2.run;
        result = r3.result;
        ended = r3.run;
        before_i = merge_all cvrdt (r1.result.process i).app.inner to_i.states;
        at_i =
            g2.inner
            ∙ merge_all-snoc (r1.result.process i).app.inner
                (wire (r1.result.process d.sender).app.inner) to_i.states
            ∙ ap
                (λ n.
                  merge (merge_all cvrdt (r1.result.process i).app.inner to_i.states)
                    (wire n.app.inner))
                (ap r1.result.process b.is_link.from ∙ sym (g2.others j ne));
        at_j =
            g3.inner
            ∙ ap (λ k. merge (mid.process j).app.inner (wire (mid.process k).app.inner))
                a.is_link.from;
        same_i = g3.others i en;
        alive_i =
            IsAlive-as (cl.process i) (r3.result.process i)
              (ap (λ n. n.follower) (g3.others i en)
                ∙ g2.same_follower
                ∙ ap (λ n. n.follower) (at_once i en))
              (ap (λ n. n.queued) (g3.others i en)
                ∙ g2.same_queued
                ∙ ap (λ n. n.queued) (at_once i en))
              alive_i;
        alive_j =
            IsAlive-as (cl.process j) (r3.result.process j)
              (g3.same_follower
                ∙ ap (λ n. n.follower) (g2.others j ne)
                ∙ g1.same_follower
                ∙ ap (λ f. (f j).follower) same)
              (g3.same_queued
                ∙ ap (λ n. n.queued) (g2.others j ne)
                ∙ g1.same_queued
                ∙ ap (λ f. (f j).queued) same)
              alive_j;
        shown_i =
            ap (λ n. n.unshown) (g3.others i en)
            ∙ g2.now_shown _
                (In-middle to_i.states [] (wire (r1.result.process d.sender).app.inner));
        shown_j = g3.now_shown _ first;
      }
