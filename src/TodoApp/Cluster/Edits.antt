-- ===== src/TodoApp/Cluster/Edits.antt =====
-- What a browser's request does to the lists of two peers that are configured for each other.
use nettverksprogrammering_p.Base.{
  ℕ, ◌≡◌, ◌≢◌, refl, inl, inr, true, false, some, List, In, unwrap_or, arith,
}
use nettverksprogrammering_p.Std.HashMap
use nettverksprogrammering_p.Std.HashMap.{get-new}
use nettverksprogrammering_p.Std.Text.{Text, text_key, trim, is_empty}
use nettverksprogrammering_p.Std.Word.{dev}
use nettverksprogrammering_p.CrdtCore.Clock.{ReplicaId}
use nettverksprogrammering_p.CrdtCore.GSet
use nettverksprogrammering_p.CrdtSync.{Codec}
use nettverksprogrammering_p.CrdtSync.Exchange.{IsFaithful}
use nettverksprogrammering_p.TodoApp.Protocol.{TodoItem, ClientMessage}
use nettverksprogrammering_p.TodoApp.Process.{Process}
use nettverksprogrammering_p.TodoApp.Process.Shown.{IsAtRest}
use nettverksprogrammering_p.TodoApp.Server.{Json}
use nettverksprogrammering_p.TodoApp.State
use nettverksprogrammering_p.TodoApp.State.{TodoState, apply, todos, snapshot}
use nettverksprogrammering_p.TodoApp.State.Apply.{is_visible}
use nettverksprogrammering_p.TodoApp.State.Lasting.{
  Allows, Lists, no_trace-Allows, Lists-Allows, Lists-todos, new_item, Stores-Lists, HasRemoved,
  Deletes-HasRemoved, HasRemoved-todos, HasCompleted, Toggles-HasCompleted, HasCompleted-todos,
}
use nettverksprogrammering_p.TodoApp.State.Shown.{todos_iff}
use nettverksprogrammering_p.TodoApp.State.Writes.{add_filled, toggle_visible, delete_known}
use nettverksprogrammering_p.TodoApp.System.{wire}
use nettverksprogrammering_p.TodoApp.System.Fresh.{Reach-AreTidy, next_id-HasNoTrace}
use nettverksprogrammering_p.TodoApp.System.Sound.{Reach-IsSound}
use nettverksprogrammering_p.TodoApp.Network.{Network}
use nettverksprogrammering_p.TodoApp.Network.Refines.{replicas, Reach-replicas}
use nettverksprogrammering_p.TodoApp.Cluster.{Net, Works, Reach}
use nettverksprogrammering_p.TodoApp.Cluster.Converges.{ShowsItsState}
use nettverksprogrammering_p.TodoApp.Cluster.Meeting.{IsTotal}
use nettverksprogrammering_p.TodoApp.Cluster.Refines.{Reach-IsBehind}
use nettverksprogrammering_p.TodoApp.Cluster.Requests.{
  asked, Agreed, agree, asked-Tracks, Anything, item-AreMerged, removed-AreMerged,
  completed-AreMerged,
}
use nettverksprogrammering_p.TodoApp.Cluster.Rounds.{IsAlive}
use nettverksprogrammering_p.TodoApp.Cluster.Spreads.{AreMerged}

new_lists_nothing :
    (peer_id : Text) (replica_id : ReplicaId) (item : TodoItem)
    → ¬ In item (todos (State.new peer_id replica_id))
unfolding State.new
new_lists_nothing peer_id replica_id item m =
    cc (((todos_iff (State.new peer_id replica_id) item).0 m).1, get-new {V = Text} item.id)

module _ (json : Json) where
  open json use {Message, to_string}

  -- The process is at rest, its list has the item, and its browsers have been sent the snapshot of
  -- the list, if it can be serialized.
  pub record ShowsItem (n : Process Message) (item : TodoItem) : Type 0 where
    pub rests : IsAtRest n
    pub listed : In item (todos n.app.inner)
    pub shown : (m : Message) → to_string (snapshot n.app.inner) ≡ some m → In m n.app.ws_tx

  shows_item :
      (peer_id : ℕ → Text) (replica_id : ℕ → ReplicaId) (n : Process Message) (i : ℕ)
      (item : TodoItem)
      → ShowsItsState json peer_id replica_id n i
      → In item (todos n.app.inner)
      → ShowsItem n item
  shows_item peer_id replica_id n i item h m = record {
    rests = h.rests;
    listed = m;
    shown = λ t made. elim (h.shown t made) [
      | inl untouched ↦
          absurd (new_lists_nothing (peer_id i) (replica_id i) item (rw untouched at m))
      | inr sent ↦ sent
    ];
  }

module _ (json : Json) (codec : Codec TodoState) (total : IsTotal codec)
    (faithful : IsFaithful codec wire) (peer_id : ℕ → Text) (peers : ℕ → List ℕ)
    (distinct : (i j : ℕ) → peer_id i ≡ peer_id j → i ≡ j) (replica_id : ℕ → ReplicaId)
    (cl : Net json codec) (i j : ℕ) (r : Reach json codec peer_id peers replica_id cl) (ne : i ≢ j)
    (ij : In j (peers i)) (ji : In i (peers j)) (alive_i : IsAlive (cl.process i))
    (alive_j : IsAlive (cl.process j)) where
  -- A request of a browser of `i`, and what comes of it.
  follow :
      (P Q : TodoState → Type 0) (closed : AreMerged P Q) (msg : ClientMessage) (s : TodoState)
      → apply dev (cl.process i).app.inner msg ≡ some s
      → ((k : ℕ) → P (cl.process k).app.inner)
      → ((x : TodoState)
          → In x (Reach-IsBehind json codec faithful peer_id peers replica_id cl r).ss
          → P x)
      → P s
      → Q s
      → Agreed json codec total faithful peer_id peers distinct replica_id Q
          (asked json codec cl i s)
          i
          j
  follow P Q closed msg s e all sent own q =
      agree json codec total faithful peer_id peers distinct replica_id P Q closed cl i j msg s
        (Reach-IsBehind json codec faithful peer_id peers replica_id cl r).ss r ne ij ji alive_i
        alive_j e
        (asked-Tracks json codec total faithful peer_id peers distinct replica_id P Q cl i s r all
          sent own q)

  -- In a reachable cluster whose peers have different names, two different peers have each other
  -- among their configured peers, the followers of both have not ended, and their channels have not
  -- lost an update. The codec serializes every message and reads it back less the skipped fields. A
  -- browser of the first peer adds a text that is not blank. Then the programs can go on by
  -- themselves, with nothing from outside, to a cluster in which both peers are at rest, hold the
  -- same list, and list the trimmed text under its new id, as not completed and as made by the first
  -- peer; and each has sent the snapshot of the list to its browsers, if it can be serialized.
  pub added_todo_is_shown :
      (text : Text) (s : TodoState)
      → is_empty (trim text) ≡ false
      → apply dev (cl.process i).app.inner (ClientMessage.add text) ≡ some s
      → (cl' : Net json codec) × Works json codec peer_id peers (asked json codec cl i s) cl'
        × ShowsItem json (cl'.process i) (new_item (cl.process i).app.inner (trim text))
        × ShowsItem json (cl'.process j) (new_item (cl.process i).app.inner (trim text))
        × (todos (cl'.process i).app.inner ≡ todos (cl'.process j).app.inner)
  unfolding apply
  added_todo_is_shown text s filled e =
      let inner : TodoState = (cl.process i).app.inner in
      let item : TodoItem = new_item inner (trim text) in
      let b = Reach-IsBehind json codec faithful peer_id peers replica_id cl r in
      let net : Network json.Message = record { process = cl.process; sent = b.ss } in
      let reached = Reach-replicas json peer_id replica_id net b.holds in
      let (all, sent) =
        next_id-HasNoTrace peer_id distinct (replicas net)
          (Reach-IsSound peer_id distinct replica_id reached) i
          (Reach-AreTidy peer_id replica_id reached) in
      let lists = Stores-Lists inner s (trim text) (add_filled inner s text filled e) (all i) in
      let a =
        follow (Allows item) (Lists item) (item-AreMerged item) (ClientMessage.add text) s e
          (λ k. no_trace-Allows item (cl.process k).app.inner (all k))
          (λ x m. no_trace-Allows item x (sent x m)) (Lists-Allows item s lists) lists in
      let here = Lists-todos item (a.result.process i).app.inner refl a.at in
      (
        a.result,
        a.run,
        shows_item json peer_id replica_id (a.result.process i) i item a.shows_i here,
        shows_item json peer_id replica_id (a.result.process j) j item a.shows_j
            (rw a.alike at here),
        a.alike,
      )

  -- In a reachable cluster whose peers have different names, two different peers have each other
  -- among their configured peers, the followers of both have not ended, and their channels have not
  -- lost an update. The codec serializes every message and reads it back less the skipped fields. A
  -- browser of the first peer deletes a todo that its peer knows. Then the programs can go on by
  -- themselves, with nothing from outside, to a cluster in which both peers are at rest and hold the
  -- same list, in which no item has the id of the todo; and each has sent the snapshot of its state
  -- to its browsers, unless this cannot be serialized or is the state that it started with.
  pub deleted_todo_vanishes :
      (id : Text) (s : TodoState)
      → GSet.contains (cl.process i).app.inner.added id ≡ true
      → apply dev (cl.process i).app.inner (ClientMessage.delete id) ≡ some s
      → (cl' : Net json codec) × Works json codec peer_id peers (asked json codec cl i s) cl'
        × ShowsItsState json peer_id replica_id (cl'.process i) i
        × ShowsItsState json peer_id replica_id (cl'.process j) j
        × (todos (cl'.process i).app.inner ≡ todos (cl'.process j).app.inner)
        × ((item : TodoItem) → In item (todos (cl'.process i).app.inner) → item.id ≢ id)
  unfolding apply
  deleted_todo_vanishes id s known e =
      let gone =
        Deletes-HasRemoved (cl.process i).app.inner s id
          (delete_known (cl.process i).app.inner s id known e) in
      let a =
        follow Anything (HasRemoved id) (removed-AreMerged id) (ClientMessage.delete id) s e
          (λ k. tt) (λ x m. tt) tt gone in
      (
        a.result,
        a.run,
        a.shows_i,
        a.shows_j,
        a.alike,
        λ item m. HasRemoved-todos (a.result.process i).app.inner id item a.at m,
      )

  -- In a reachable cluster whose peers have different names, two different peers have each other
  -- among their configured peers, the followers of both have not ended, and their channels have not
  -- lost an update. The codec serializes every message and reads it back less the skipped fields. A
  -- browser of the first peer toggles a todo that its peer shows as not completed. Then the programs
  -- can go on by themselves, with nothing from outside, to a cluster in which both peers are at rest
  -- and hold the same list, in which every item with the id of the todo is completed; and each has
  -- sent the snapshot of its state to its browsers, unless this cannot be serialized or is the state
  -- that it started with.
  pub completed_todo_is_completed :
      (id : Text) (s : TodoState)
      → is_visible (cl.process i).app.inner id ≡ true
      → unwrap_or (HashMap.get (cl.process i).app.inner.completed id) false ≡ false
      → apply dev (cl.process i).app.inner (ClientMessage.toggle id) ≡ some s
      → (cl' : Net json codec) × Works json codec peer_id peers (asked json codec cl i s) cl'
        × ShowsItsState json peer_id replica_id (cl'.process i) i
        × ShowsItsState json peer_id replica_id (cl'.process j) j
        × (todos (cl'.process i).app.inner ≡ todos (cl'.process j).app.inner)
        × ((item : TodoItem)
            → In item (todos (cl'.process i).app.inner)
            → item.id ≡ id
            → item.completed ≡ true)
  unfolding apply is_visible
  completed_todo_is_completed id s visible was e =
      let toggled =
        toggle_visible (cl.process i).app.inner s id (ground (arith, visible))
          (ground (arith, visible)) e in
      let a =
        follow Anything (HasCompleted id) (completed-AreMerged id) (ClientMessage.toggle id) s e
          (λ k. tt) (λ x m. tt) tt
          (Toggles-HasCompleted (cl.process i).app.inner s id toggled was) in
      (
        a.result,
        a.run,
        a.shows_i,
        a.shows_j,
        a.alike,
        λ item m same. HasCompleted-todos (a.result.process i).app.inner id item a.at m same,
      )
