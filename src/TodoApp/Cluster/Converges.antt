-- ===== src/TodoApp/Cluster/Converges.antt =====
-- Two peers that are configured for each other, and what their browsers see when nothing comes from
-- outside for a while.
use nettverksprogrammering_p.TodoApp.Cluster.Rounds.{IsAlive, Meeting, meet}
use nettverksprogrammering_p.Base.{ℕ, ◌≡◌, ◌≢◌, refl, sym, ap, ◌∙◌, ◌⊎◌, some, List, In}
use nettverksprogrammering_p.Std.Text.{Text}
use nettverksprogrammering_p.CrdtCore.Clock.{ReplicaId}
use nettverksprogrammering_p.CrdtCore.Traits.Order.{Below-merge_right}
use nettverksprogrammering_p.CrdtSync.{Codec}
use nettverksprogrammering_p.CrdtSync.Exchange.{IsFaithful}
use nettverksprogrammering_p.TodoApp.Process.{Process}
use nettverksprogrammering_p.TodoApp.Process.Settles.{comes_to_rest}
use nettverksprogrammering_p.TodoApp.Process.Shown.{IsAtRest}
use nettverksprogrammering_p.TodoApp.Server.{Json}
use nettverksprogrammering_p.TodoApp.State
use nettverksprogrammering_p.TodoApp.State.{TodoState, merge, cvrdt, todos, snapshot}
use nettverksprogrammering_p.TodoApp.State.Merge.{Same, TodoState-IsConvergent}
use nettverksprogrammering_p.TodoApp.State.Shown.{todos_congr}
use nettverksprogrammering_p.TodoApp.System as Replicas
use nettverksprogrammering_p.TodoApp.System.{System, wire, update}
use nettverksprogrammering_p.TodoApp.System.Agreement.{exchange_converges}
use nettverksprogrammering_p.TodoApp.System.Invariant.{update_self}
use nettverksprogrammering_p.TodoApp.System.Sound.{Reach-IsSound}
use nettverksprogrammering_p.TodoApp.Network.{Network}
use nettverksprogrammering_p.TodoApp.Network.Refines.{replicas, Reach-replicas}
use nettverksprogrammering_p.TodoApp.Network.Quiet.{rest_shown}
use nettverksprogrammering_p.TodoApp.Cluster.{Net, Works, Reach}
use nettverksprogrammering_p.TodoApp.Cluster.Refines.{Reach-IsBehind}
use nettverksprogrammering_p.TodoApp.Cluster.Links.{
  update_other, Works-trans, works-Reach, tasks-Works,
}
use nettverksprogrammering_p.TodoApp.Cluster.Meeting.{IsTotal}

-- A replica that has just merged the state of another, which merges the result in turn: the two hold
-- the same entries.
echoed :
    (peer_id : ℕ → Text) (distinct : (i j : ℕ) → peer_id i ≡ peer_id j → i ≡ j)
    (replica_id : ℕ → ReplicaId) (s : System)
    → Replicas.Reach peer_id replica_id s
    → (i j : ℕ) (t : TodoState) → s.replica i ≡ merge t (wire (s.replica j))
    → Same (s.replica i) (merge (s.replica j) (wire (s.replica i)))
echoed peer_id distinct replica_id s r i j t e =
    let laws = TodoState-IsConvergent (λ id. id) (λ id. id) in
    let a : TodoState = s.replica i in
    let b : TodoState = s.replica j in
    laws.same_trans a (merge a (wire b)) (merge b (wire a))
      (laws.same_symm (merge a (wire b)) a (rw e (Below-merge_right laws t (wire b))))
      (exchange_converges peer_id distinct replica_id s r i j)

module _ (json : Json) (peer_id : ℕ → Text) (replica_id : ℕ → ReplicaId) where
  open json use {Message, to_string}

  -- The process is at rest, and its browsers have been sent the snapshot of its state, unless this
  -- is the one that it started with, or cannot be serialized.
  pub record ShowsItsState (n : Process Message) (i : ℕ) : Type 0 where
    pub rests : IsAtRest n
    pub shown :
        (m : Message)
        → to_string (snapshot n.app.inner) ≡ some m
        → (n.app.inner ≡ State.new (peer_id i) (replica_id i)) ⊎ In m n.app.ws_tx

module _ (json : Json) (codec : Codec TodoState) (total : IsTotal codec)
    (faithful : IsFaithful codec wire) (peer_id : ℕ → Text) (peers : ℕ → List ℕ)
    (distinct : (i j : ℕ) → peer_id i ≡ peer_id j → i ≡ j) (replica_id : ℕ → ReplicaId) where
  open json use {Message, to_string}

  met_same :
      (cl : Net json codec) (i j : ℕ)
      → Reach json codec peer_id peers replica_id cl
      → (m : Meeting json codec total faithful peer_id peers distinct replica_id cl i j)
      → todos (m.result.process i).app.inner ≡ todos (m.result.process j).app.inner
  met_same cl i j r m =
      let behind =
        Reach-IsBehind json codec faithful peer_id peers replica_id m.between
          (works-Reach json codec peer_id peers replica_id r m.begun) in
      let net : Network Message = record { process = m.between.process; sent = behind.ss } in
      let reached = Reach-replicas json peer_id replica_id net behind.holds in
      let sound = Reach-IsSound peer_id distinct replica_id reached in
      let same = echoed peer_id distinct replica_id (replicas net) reached i j m.before_i m.at_i in
      ap (λ n. todos n.app.inner) m.same_i
      ∙ todos_congr (m.between.process i).app.inner
          (merge (m.between.process j).app.inner (wire (m.between.process i).app.inner)) same
          (sound.owned i).credited
      ∙ sym (ap todos m.at_j)

  shows :
      (cl : Net json codec) (i : ℕ) (n : Process Message)
      → Reach json codec peer_id peers replica_id cl
      → cl.process i ≡ n
      → IsAtRest n
      → ShowsItsState json peer_id replica_id n i
  shows cl i n r e rest =
      let behind = Reach-IsBehind json codec faithful peer_id peers replica_id cl r in
      let net : Network Message = record { process = cl.process; sent = behind.ss } in
      record {
        rests = rest;
        shown = λ m made. rw (← e) (
            rest_shown json peer_id distinct replica_id net behind.holds i m (rw e rest)
              (rw e made));
      }

  -- In a reachable cluster whose peers have different names, two different peers have each other
  -- among their configured peers, the followers of both have not ended, and their channels have not
  -- lost an update. If the codec serializes every message and reads it back less the skipped
  -- fields, then the programs can go on by themselves, with nothing from outside, to a cluster in
  -- which both are at rest and hold the same list of todos, and each has sent the snapshot of its
  -- state to its browsers, unless this cannot be serialized or is the state that it started with.
  pub peers_converge :
      (cl : Net json codec) (i j : ℕ)
      → Reach json codec peer_id peers replica_id cl
      → i ≢ j
      → In j (peers i)
      → In i (peers j)
      → IsAlive (cl.process i)
      → IsAlive (cl.process j)
      → (cl' : Net json codec) × Works json codec peer_id peers cl cl'
        × ShowsItsState json peer_id replica_id (cl'.process i) i
        × ShowsItsState json peer_id replica_id (cl'.process j) j
        × (todos (cl'.process i).app.inner ≡ todos (cl'.process j).app.inner)
  peers_converge cl i j r ne ij ji alive_i alive_j =
      let m =
        meet json codec total faithful peer_id peers distinct replica_id cl i j r ne ij ji alive_i
          alive_j in
      let met : Net json codec = m.result in
      let hi =
        comes_to_rest json (met.process i).follower (met.process i) refl m.alive_i.follows
          m.alive_i.fits m.shown_i in
      let hj =
        comes_to_rest json (met.process j).follower (met.process j) refl m.alive_j.follows
          m.alive_j.fits m.shown_j in
      let half : Net json codec = record met { process = update met.process i hi.result } in
      let last : Net json codec = record half { process = update half.process j hj.result } in
      let same_j : half.process j ≡ met.process j = update_other met.process i j hi.result ne in
      let last_j : last.process j ≡ hj.result = update_self half.process j hj.result in
      let last_i : last.process i ≡ hi.result =
        update_other half.process j i hj.result (λ e. ne (sym e))
        ∙ update_self met.process i hi.result in
      let run : Works json codec peer_id peers cl last =
        Works-trans json codec peer_id peers
          (Works-trans json codec peer_id peers
            (Works-trans json codec peer_id peers m.begun m.ended)
            (tasks-Works json codec peer_id peers met i refl hi.run))
          (tasks-Works json codec peer_id peers half j same_j hj.run) in
      let reached = works-Reach json codec peer_id peers replica_id r run in
      (
        last,
        run,
        rw last_i (shows last i hi.result reached last_i hi.rests),
        rw last_j (shows last j hj.result reached last_j hj.rests),
        rw (last_i, last_j, hi.same_inner, hj.same_inner) (met_same cl i j r m),
      )
