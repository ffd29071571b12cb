-- ===== src/TodoApp/Process/Sessions/Catches.antt =====
-- How a browser gets the snapshot of the current state, when nothing comes from outside.
use nettverksprogrammering_p.Base.{
  ◌≤◌, ◌≡◌, ◌≢◌, refl, sym, ap, ◌∙◌, false, some, [], ◌++◌, In, length,
}
use mathlib.Core.List.{append-nil, append_cancel_left}
use nettverksprogrammering_p.Std.Word.{Profile}
use nettverksprogrammering_p.TodoApp.Server.{Json}
use nettverksprogrammering_p.TodoApp.State.{snapshot}
use nettverksprogrammering_p.TodoApp.Process.{Process, Follower, channel_capacity}
use nettverksprogrammering_p.TodoApp.Process.Shown.{IsAtRest}
use nettverksprogrammering_p.TodoApp.Process.Settles.{comes_to_rest}
use nettverksprogrammering_p.TodoApp.Process.Browsers.{browser_gets_current}
use nettverksprogrammering_p.TodoApp.Process.Sessions.{
  streaming, ended, ws_capacity, Session, Moves, still, and_move, Opened, later, move,
}
use nettverksprogrammering_p.TodoApp.Process.Sessions.Follows.{silent, told, Opened-Progress}
use nettverksprogrammering_p.TodoApp.Process.Sessions.Drains.{Moves-trans, follow_tasks, begin}

module _ (json : Json) where
  open json use {Message, to_string}

  module _ (p : Profile) (n : Process Message) where
    moved-Opened : {v w : Session Message} → Opened json p n v → Moves json v w → Opened json p n w
    moved-Opened r still = r
    moved-Opened r (and_move r' m) = later (moved-Opened r r') (move m)

    -- Of a process at rest, a browser that has received all has been sent the current snapshot.
    current_at_rest :
        (v : Session Message) (m : Message)
        → Opened json p n v
        → v.phase ≡ streaming
        → v.queue ≡ []
        → IsAtRest v.process
        → to_string (snapshot v.process.app.inner) ≡ some m
        → In m v.sent
    current_at_rest v m r at empty rest made = elim (Opened-Progress json p n v r) [
      | silent ne _ _ _ ↦ absurd (ne at)
      | told ne h ↦
          let (texts, since, k) =
            browser_gets_current json p n h.b v.process h.first m h.before h.after rest h.greets
              made in
          let received : h.read ≡ texts =
            sym (append-nil h.read)
            ∙ ap (λ q. h.read ++ q) (sym empty)
            ∙ append_cancel_left n.app.ws_tx (h.read ++ v.queue) texts (sym h.since ∙ since) in
          rw (h.sent, received) k
    ]

    -- A browser has subscribed in `n`, its connection has not ended, and its channel has lost no text.
    -- The follower of the process has not ended, its channel has lost no update, and no task was
    -- aborted since the last change. Then the process and the sending task can go on with nothing
    -- from outside until the process is at rest, with the state that it had, and the browser has been
    -- sent the snapshot of it, if it can be serialized.
    pub browser_catches_up :
        (v : Session Message) (m : Message)
        → Opened json p n v
        → v.phase ≢ ended
        → length v.queue ≤ ws_capacity
        → v.process.follower ≢ Follower.ended
        → v.process.queued ≤ channel_capacity
        → v.process.unshown ≡ false
        → to_string (snapshot v.process.app.inner) ≡ some m
        → (w : Session Message) × Moves json v w
          × (w.process.app.inner ≡ v.process.app.inner)
          × IsAtRest w.process
          × (w.phase ≡ streaming)
          × In m w.sent
    browser_catches_up v m r open_still fits alive queued shown made =
        let g = begin json v.phase v m refl open_still made in
        let u : Session Message = g.result in
        let h = comes_to_rest json v.process.follower v.process refl alive queued shown in
        let d =
          follow_tasks json v.process h.result u h.run g.same_process (rw g.same_queue fits)
            g.streams in
        let w : Session Message = d.result in
        let run = Moves-trans json g.moves d.moves in
        let rest : IsAtRest w.process = rw d.process h.rests in
        let same : w.process.app.inner ≡ v.process.app.inner =
          ap (λ o. o.app.inner) d.process ∙ h.same_inner in
        (
          w,
          run,
          same,
          rest,
          d.streams,
          current_at_rest w m (moved-Opened r run) d.streams d.empty rest (rw same made),
        )
