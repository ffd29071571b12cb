-- ===== src/TodoApp/Cluster/Refines.antt =====
-- The steps of the cluster, seen as steps of the network that forgets the connections.
use nettverksprogrammering_p.Base.{ℕ, false, List, [], In-insert}
use nettverksprogrammering_p.Std.Text.{Text}
use nettverksprogrammering_p.CrdtCore.Clock.{ReplicaId}
use nettverksprogrammering_p.CrdtSync.{Codec}
use nettverksprogrammering_p.CrdtSync.Exchange.{IsFaithful}
use nettverksprogrammering_p.TodoApp.Process as Peer
use nettverksprogrammering_p.TodoApp.Process.{Process, StepReceives}
use nettverksprogrammering_p.TodoApp.Server.{Json}
use nettverksprogrammering_p.TodoApp.State.{TodoState}
use nettverksprogrammering_p.TodoApp.System.{wire}
use nettverksprogrammering_p.TodoApp.Network as Network
use nettverksprogrammering_p.TodoApp.Cluster.{
  Net, Step, work, request, abort, close, lose, Reach, start, later,
}
use nettverksprogrammering_p.TodoApp.Cluster.Tracks.{
  Tracks, IsKept, Work-Tracks, carried_replaced, carried_at,
}

module _ (json : Json) (codec : Codec TodoState) (peer_id : ℕ → Text)
    (replica_id : ℕ → ReplicaId) where
  open codec use {Bytes}

  -- A run of the network has the same processes, and has sent all that the connections carry.
  abbrev pub IsBehind : Net json codec → Type 0
  IsBehind = Tracks json codec (Network.Reach json peer_id replica_id)

Reach-IsKept :
    (json : Json) (peer_id : ℕ → Text) (replica_id : ℕ → ReplicaId)
    → IsKept json (Network.Reach json peer_id replica_id)
unfolding StepReceives
Reach-IsKept json peer_id replica_id = record {
  by_task = λ net i t r. Network.later r (Network.local i (Peer.task t) tt);
  by_receive = λ net i x m r. Network.later r (Network.local i (Peer.receive x) m);
  by_push = λ net i r. Network.later r (Network.push i);
}

module _ (json : Json) (codec : Codec TodoState) (faithful : IsFaithful codec wire) where
  open codec use {Bytes, serialize, deserialize}

  module _ (peer_id : ℕ → Text) (peers : ℕ → List ℕ) (replica_id : ℕ → ReplicaId) where
    Step-IsBehind :
        (cl cl' : Net json codec)
        → Step json codec peer_id peers cl cl'
        → IsBehind json codec peer_id replica_id cl
        → IsBehind json codec peer_id replica_id cl'
    unfolding StepReceives
    Step-IsBehind cl cl' (work w) h =
        Work-Tracks json codec faithful (Network.Reach json peer_id replica_id)
          (Reach-IsKept json peer_id replica_id) peer_id peers cl cl' w h
    Step-IsBehind cl cl' (request i msg e) h = record {
      ss = h.ss;
      holds = Network.later h.holds (Network.local i (Peer.act msg e) tt);
      carried = h.carried;
    }
    Step-IsBehind cl cl' (abort i e) h = record {
      ss = h.ss;
      holds = Network.later h.holds (Network.local i (Peer.abort e) tt);
      carried = h.carried;
    }
    Step-IsBehind cl cl' (close c before after e) h = record {
      ss = h.ss;
      holds = h.holds;
      carried =
          carried_replaced json codec faithful h.ss cl.connections before after c
            (record c { is_open = false }) e
            (carried_at json codec faithful h.ss cl.connections before after c e h.carried)
            h.carried;
    }
    Step-IsBehind cl cl' (lose c before after e) h = record {
      ss = h.ss;
      holds = h.holds;
      carried = λ d m. h.carried d (rw e (In-insert before after c d m));
    }

    -- If the codec reads back what it writes, less the skipped fields, then the processes of a
    -- reachable cluster are those of a reachable network, whatever happens to the connections, and
    -- everything that is on its way can be read, and holds states that were pushed.
    pub Reach-IsBehind :
        (cl : Net json codec)
        → Reach json codec peer_id peers replica_id cl
        → IsBehind json codec peer_id replica_id cl
    Reach-IsBehind cl start = record { ss = []; holds = Network.start; carried = λ c m. elim m [ ] }
    Reach-IsBehind cl (later {cl = before} r st) =
        Step-IsBehind before cl st (Reach-IsBehind before r)
