-- ===== src/TodoApp/Cluster/Links.antt =====
-- What the programs can do with their connections by themselves: open one, push a state, and read
-- all that is on its way.
use nettverksprogrammering_p.Base.{
  ℕ, ◌≡◌, ◌≢◌, refl, ap, ◌∙◌, false, inl, inr, List, [], ◌∷◌, ◌++◌, In, In-split, In-insert,
  In-middle, In-position, fun_ext, arith,
}
use nettverksprogrammering_p.Std.Text.{Text}
use nettverksprogrammering_p.CrdtCore.Clock.{ReplicaId}
use nettverksprogrammering_p.CrdtCore.Traits.Delivery.{merge_all}
use nettverksprogrammering_p.CrdtSync.{Codec}
use nettverksprogrammering_p.CrdtSync.Exchange.{Reads, done, greeted, sent}
use nettverksprogrammering_p.TodoApp.Process.{Process, Tasks, idle, then_task, absorbed}
use nettverksprogrammering_p.TodoApp.Server.{Json}
use nettverksprogrammering_p.TodoApp.State.{TodoState, cvrdt}
use nettverksprogrammering_p.TodoApp.System.{update}
use nettverksprogrammering_p.TodoApp.System.Invariant.{update_self}
use nettverksprogrammering_p.TodoApp.Network.Refines.{update_same}
use nettverksprogrammering_p.TodoApp.Cluster.{
  Connection, Net, Work, task, greet, deliver, Works, nothing, and_work, work, Reach, later,
}

pub update_other : {A : Type 0} (f : ℕ → A) (i j : ℕ) (r : A) → i ≢ j → update f i r j ≡ f j
update_other f i j r ne = ground arith

update_twice : {A : Type 0} (f : ℕ → A) (i : ℕ) (a b : A) → update (update f i a) i b ≡ update f i b
update_twice f i a b = fun_ext (λ j. ground arith)

module _ {Bytes : Type 0} where
  -- A connection is replaced; those of other senders stay.
  pub stays :
      (cs before after : List (Connection Bytes)) (c c' d : Connection Bytes)
      → cs ≡ before ++ c ∷ after
      → d.sender ≢ c.sender
      → In d cs
      → In d (before ++ c' ∷ after)
  stays cs before after c c' d e other m = elim (In-split before after c d (rw e at m)) [
    | inl same ↦ absurd (other (ap (λ x. x.sender) same))
    | inr k ↦ In-insert before after c' d k
  ]

module _ (json : Json) (codec : Codec TodoState) (peer_id : ℕ → Text) (peers : ℕ → List ℕ) where
  open json use {Message}
  open codec use {Bytes, serialize, deserialize}

  pub Works-trans :
      {a b c : Net json codec}
      → Works json codec peer_id peers a b
      → Works json codec peer_id peers b c
      → Works json codec peer_id peers a c
  Works-trans r nothing = r
  Works-trans r (and_work r' w) = and_work (Works-trans r r') w

  pub works-Reach :
      (replica_id : ℕ → ReplicaId) {a b : Net json codec}
      → Reach json codec peer_id peers replica_id a
      → Works json codec peer_id peers a b
      → Reach json codec peer_id peers replica_id b
  works-Reach replica_id r nothing = r
  works-Reach replica_id r (and_work w st) = later (works-Reach replica_id r w) (work st)

  -- The tasks of one process, as work of the cluster.
  pub tasks-Works :
      (cl : Net json codec) (i : ℕ) {n o : Process Message}
      → cl.process i ≡ n
      → Tasks json n o
      → Works json codec peer_id peers cl (record cl { process = update cl.process i o })
  tasks-Works cl i e idle = rw (← e, update_same cl.process i) nothing
  tasks-Works cl i {n} {o} e (then_task {m} r t) =
      let before : Net json codec = record cl { process = update cl.process i m } in
      let last : Work json codec peer_id peers before
          (record before { process = update before.process i o }) =
        task i (rw (update_self cl.process i m) t) in
      rw (← update_twice cl.process i m o) (and_work (tasks-Works cl i e r) last)

  -- What a connection leaves at its receiver when all of it is read.
  pub record HasDelivered (cl cl' : Net json codec) (c : Connection Bytes) (xs : List TodoState)
      : Type 0 where
    pub inner :
        (cl'.process c.receiver).app.inner ≡ merge_all cvrdt (cl.process c.receiver).app.inner xs
    pub same_follower : (cl'.process c.receiver).follower ≡ (cl.process c.receiver).follower
    pub same_queued : (cl'.process c.receiver).queued ≡ (cl.process c.receiver).queued
    pub still_shown :
        (cl.process c.receiver).unshown ≡ false → (cl'.process c.receiver).unshown ≡ false
    pub now_shown : (x : TodoState) → In x xs → (cl'.process c.receiver).unshown ≡ false
    pub others : (k : ℕ) → c.receiver ≢ k → cl'.process k ≡ cl.process k
    pub drained : In (record c { frames = [] }) cl'.connections
    pub kept :
        (d : Connection Bytes) → d.sender ≢ c.sender → In d cl.connections → In d cl'.connections

  pub record ReadsAll (cl : Net json codec) (c : Connection Bytes) (xs : List TodoState)
      : Type 0 where
    pub result : Net json codec
    pub run : Works json codec peer_id peers cl result
    pub delivered : HasDelivered cl result c xs

  pub read_all :
      (bs : List Bytes) (xs : List TodoState) (cl : Net json codec) (c : Connection Bytes)
      → Reads codec bs xs
      → In c cl.connections
      → c.frames ≡ bs
      → ReadsAll cl c xs
  unfolding merge_all
  read_all bs xs cl c done m e = record {
    result = cl;
    run = nothing;
    delivered = record {
      inner = refl;
      same_follower = refl;
      same_queued = refl;
      still_shown = λ k. k;
      now_shown = λ x k. elim k [ ];
      others = λ k ne. refl;
      drained = rw (← e) m;
      kept = λ d ne k. k;
    };
  }
  read_all bs xs cl c (greeted {b} {bs = rest} name f r) m e =
      let (before, after, at) = In-position m in
      let c' : Connection Bytes = record c { frames = rest } in
      let cl' : Net json codec = record cl { connections = before ++ c' ∷ after } in
      let more = read_all rest xs cl' c' r (In-middle before after c') refl in
      record {
        result = more.result;
        run = Works-trans (and_work nothing (greet c before after name at e f)) more.run;
        delivered = record {
          inner = more.delivered.inner;
          same_follower = more.delivered.same_follower;
          same_queued = more.delivered.same_queued;
          still_shown = more.delivered.still_shown;
          now_shown = more.delivered.now_shown;
          others = more.delivered.others;
          drained = more.delivered.drained;
          kept =
              λ d ne k. more.delivered.kept d ne (stays cl.connections before after c c' d at ne k);
        };
      }
  read_all bs _ cl c (sent {b} {bs = rest} {x} {xs} f r) m e =
      let (before, after, at) = In-position m in
      let c' : Connection Bytes = record c { frames = rest } in
      let p : Process Message = absorbed json (cl.process c.receiver) x in
      let cl' : Net json codec = record {
        process = update cl.process c.receiver p;
        connections = before ++ c' ∷ after;
      } in
      let self : update cl.process c.receiver p c.receiver ≡ p =
        update_self cl.process c.receiver p in
      let more = read_all rest xs cl' c' r (In-middle before after c') refl in
      let shown = more.delivered.still_shown (ap (λ n. n.unshown) self) in
      record {
        result = more.result;
        run = Works-trans (and_work nothing (deliver c before after x at e f)) more.run;
        delivered = record {
          inner = more.delivered.inner ∙ ap (λ n. merge_all cvrdt n.app.inner xs) self;
          same_follower = more.delivered.same_follower ∙ ap (λ n. n.follower) self;
          same_queued = more.delivered.same_queued ∙ ap (λ n. n.queued) self;
          still_shown = λ k. shown;
          now_shown = λ y k. shown;
          others = λ k ne. more.delivered.others k ne ∙ update_other cl.process c.receiver k p ne;
          drained = more.delivered.drained;
          kept =
              λ d ne k. more.delivered.kept d ne (stays cl.connections before after c c' d at ne k);
        };
      }
