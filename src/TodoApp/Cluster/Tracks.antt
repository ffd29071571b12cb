-- ===== src/TodoApp/Cluster/Tracks.antt =====
-- What the work of the cluster keeps of a network that is behind it: one with the same processes,
-- which has sent all that the connections carry.
use nettverksprogrammering_p.Base.{
  ℕ, ◌≡◌, inl, inr, List, [], ◌∷◌, ◌++◌, In, In-cases, In-split, In-insert, In-middle,
}
use nettverksprogrammering_p.Std.Text.{Text}
use nettverksprogrammering_p.CrdtSync.{Codec, hello}
use nettverksprogrammering_p.CrdtSync.Exchange.{IsFaithful, done, greeted}
use nettverksprogrammering_p.TodoApp.Process as Peer
use nettverksprogrammering_p.TodoApp.Process.{Process, StepReceives}
use nettverksprogrammering_p.TodoApp.Server.{Json}
use nettverksprogrammering_p.TodoApp.State.{TodoState}
use nettverksprogrammering_p.TodoApp.System.{wire, update}
use nettverksprogrammering_p.TodoApp.Network as Network
use nettverksprogrammering_p.TodoApp.Cluster.{
  Connection, Net, Work, Works, nothing, and_work, task, connect, push, greet, deliver, refuse,
}
use nettverksprogrammering_p.TodoApp.Cluster.Carries.{
  Carries, Carries-next, Carries-push, Carries-greet, Carries-deliver,
}

module _ (json : Json) where
  open json use {Message}

  -- What holds of a network still holds after the steps that need no input.
  pub record IsKept (K : Network.Network Message → Type 0) : Type 0 where
    pub by_task :
        (net : Network.Network Message) (i : ℕ) {o : Process Message}
        → Peer.Task json (net.process i) o
        → K net
        → K (record net { process = update net.process i o })
    pub by_receive :
        (net : Network.Network Message) (i : ℕ) (x : TodoState)
        → In x net.sent
        → K net
        → K (record net { process = update net.process i (Peer.absorbed json (net.process i) x) })
    pub by_push :
        (net : Network.Network Message) (i : ℕ)
        → K net
        → K (record net { sent = wire (net.process i).app.inner ∷ net.sent })

  module _ (codec : Codec TodoState) where
    open codec use {Bytes}

    abbrev pub behind : Net json codec → List TodoState → Network.Network Message
    behind cl ss = record { process = cl.process; sent = ss }

    -- `K` holds of a network that has the same processes, and has sent all that the connections
    -- carry.
    pub record Tracks (K : Network.Network Message → Type 0) (cl : Net json codec) : Type 0 where
      pub ss : List TodoState
      pub holds : K (behind cl ss)
      pub carried : (c : Connection Bytes) → In c cl.connections → Carries codec ss c.frames

module _ (json : Json) (codec : Codec TodoState) (faithful : IsFaithful codec wire) where
  open json use {Message}
  open codec use {Bytes, serialize, deserialize}

  -- One connection is replaced by another whose frames are all right.
  pub carried_replaced :
      (ss : List TodoState) (cs before after : List (Connection Bytes)) (c c' : Connection Bytes)
      → cs ≡ before ++ c ∷ after
      → Carries codec ss c'.frames
      → ((d : Connection Bytes) → In d cs → Carries codec ss d.frames)
      → (d : Connection Bytes) → In d (before ++ c' ∷ after)
      → Carries codec ss d.frames
  carried_replaced ss cs before after c c' e good h d m = elim (In-split before after c' d m) [
    | inl same ↦ rw same good
    | inr k ↦ h d (rw e (In-insert before after c d k))
  ]

  pub carried_at :
      (ss : List TodoState) (cs before after : List (Connection Bytes)) (c : Connection Bytes)
      → cs ≡ before ++ c ∷ after
      → ((d : Connection Bytes) → In d cs → Carries codec ss d.frames)
      → Carries codec ss c.frames
  carried_at ss cs before after c e h = h c (rw e (In-middle before after c))

  module _ (K : Network.Network Message → Type 0) (kept : IsKept json K) (peer_id : ℕ → Text)
      (peers : ℕ → List ℕ) where
    pub Work-Tracks :
        (cl cl' : Net json codec)
        → Work json codec peer_id peers cl cl'
        → Tracks json codec K cl
        → Tracks json codec K cl'
    Work-Tracks cl cl' (task i t) h = record {
      ss = h.ss;
      holds = kept.by_task (behind json codec cl h.ss) i t h.holds;
      carried = h.carried;
    }
    Work-Tracks cl cl' (connect i j {b} known free e) h = record {
      ss = h.ss;
      holds = h.holds;
      carried = λ d m. elim (In-cases m) [
        | inl same ↦ rw same (record {
          states = [];
          reads = greeted (peer_id i) (faithful.reads (hello (peer_id i)) b e) done;
          were_sent = λ x k. elim k [ ];
        })
        | inr k ↦ h.carried d k
      ];
    }
    Work-Tracks cl cl' (push c before after {b} e opened f) h =
        let s : TodoState = (cl.process c.sender).app.inner in
        record {
          ss = wire s ∷ h.ss;
          holds = kept.by_push (behind json codec cl h.ss) c.sender h.holds;
          carried =
              carried_replaced (wire s ∷ h.ss) cl.connections before after c
                (record c { frames = c.frames ++ b ∷ [] }) e
                (Carries-push codec faithful h.ss s c.frames b f
                  (carried_at h.ss cl.connections before after c e h.carried))
                (λ d m. Carries-next codec faithful h.ss (wire s) d.frames (h.carried d m));
        }
    Work-Tracks cl cl' (greet c before after {b} {bs} name e at f) h = record {
      ss = h.ss;
      holds = h.holds;
      carried =
          carried_replaced h.ss cl.connections before after c (record c { frames = bs }) e
            (Carries-greet codec faithful h.ss b bs name f
              (rw at at (carried_at h.ss cl.connections before after c e h.carried)))
            h.carried;
    }
    Work-Tracks cl cl' (deliver c before after {b} {bs} x e at f) h =
        let (was_sent, rest) =
          Carries-deliver codec faithful h.ss b bs x f
            (rw at at (carried_at h.ss cl.connections before after c e h.carried)) in
        record {
          ss = h.ss;
          holds = kept.by_receive (behind json codec cl h.ss) c.receiver x was_sent h.holds;
          carried =
              carried_replaced h.ss cl.connections before after c (record c { frames = bs }) e rest
                h.carried;
        }
    Work-Tracks cl cl' (refuse c before after e at f) h = record {
      ss = h.ss;
      holds = h.holds;
      carried = λ d m. h.carried d (rw e (In-insert before after c d m));
    }

    pub Works-Tracks :
        {cl cl' : Net json codec}
        → Tracks json codec K cl
        → Works json codec peer_id peers cl cl'
        → Tracks json codec K cl'
    Works-Tracks h nothing = h
    Works-Tracks h (and_work {cl'} {cl''} r w) = Work-Tracks cl' cl'' w (Works-Tracks h r)
