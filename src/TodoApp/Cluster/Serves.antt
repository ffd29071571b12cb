-- ===== src/TodoApp/Cluster/Serves.antt =====
-- The steps at the receiver of a connection, and the loop of `serve_incoming`.
use nettverksprogrammering_p.Base.{ℕ, ◌≡◌, ◌≢◌, List, sym, ap, ◌∙◌, refl, [], In}
use nettverksprogrammering_p.Std.Text.{Text}
use nettverksprogrammering_p.CrdtCore.Clock.{ReplicaId}
use nettverksprogrammering_p.CrdtSync.{Codec, serve_frames}
use nettverksprogrammering_p.CrdtSync.Exchange.{IsFaithful, quiet, serve-Reads}
use nettverksprogrammering_p.TodoApp.Server.{Json}
use nettverksprogrammering_p.TodoApp.State.{TodoState, cvrdt}
use nettverksprogrammering_p.TodoApp.System.{wire}
use nettverksprogrammering_p.TodoApp.Cluster.{Connection, Net, Works, Reach}
use nettverksprogrammering_p.TodoApp.Cluster.Refines.{Reach-IsBehind}
use nettverksprogrammering_p.TodoApp.Cluster.Links.{read_all}

module _ (json : Json) (codec : Codec TodoState) (faithful : IsFaithful codec wire)
    (peer_id : ℕ → Text) (peers : ℕ → List ℕ) (replica_id : ℕ → ReplicaId) where
  open codec use {Bytes}

  -- In a reachable cluster whose codec reads back what it writes, less the skipped fields, the
  -- receiver of a connection can read all that is on its way. Then its state is the one that the loop
  -- of `serve_incoming` leaves, and no other process has changed.
  pub reads_as_served :
      (cl : Net json codec) (c : Connection Bytes)
      → Reach json codec peer_id peers replica_id cl
      → In c cl.connections
      → (cl' : Net json codec) × Works json codec peer_id peers cl cl'
        × In (record c { frames = [] }) cl'.connections
        × ((cl'.process c.receiver).app.inner
            ≡ (serve_frames codec cvrdt
                (cl.process c.receiver).app.inner
                0
                (quiet codec c.frames)).0)
        × ((k : ℕ) → c.receiver ≢ k → cl'.process k ≡ cl.process k)
  reads_as_served cl c r m =
      let on_its_way =
        (Reach-IsBehind json codec faithful peer_id peers replica_id cl r).carried c m in
      let h =
        read_all json codec peer_id peers c.frames on_its_way.states cl c on_its_way.reads m refl in
      let loop = serve-Reads codec cvrdt (cl.process c.receiver).app.inner 0 on_its_way.reads in
      (
        h.result,
        h.run,
        h.delivered.drained,
        h.delivered.inner ∙ sym (ap (λ t. t.0) loop),
        h.delivered.others,
      )
