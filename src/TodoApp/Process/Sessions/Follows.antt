-- ===== src/TodoApp/Process/Sessions/Follows.antt =====
-- What a browser has been sent, at any time.
use mathlib.Core.List.{append-nil, append_assoc}
use nettverksprogrammering_p.Base.{◌≡◌, ◌≢◌, refl, sym, ap, ◌∙◌, true, some, List, [], ◌∷◌, ◌++◌}
use nettverksprogrammering_p.Std.Word.{Profile}
use nettverksprogrammering_p.TodoApp.Server.{Json, send_current_snapshot, send_task}
use nettverksprogrammering_p.TodoApp.Process.{Process, Run, Step, here, next, task as by_task}
use nettverksprogrammering_p.TodoApp.Process.Shown.{Since}
use nettverksprogrammering_p.TodoApp.Process.Browsers.{delivered, send_task-delivered, greeting_lem}
use nettverksprogrammering_p.TodoApp.Process.Sessions.{
  subscribed, streaming, ended, Session, broadcast, Move, task, greet, forward, miss, move, step,
  fail, Opened, start, later,
}

module _ (json : Json) (p : Profile) (n : Process json.Message) where
  open json use {Message, to_string}

  -- The first snapshot was sent in `b`, and `read` are the texts that were received; they and the
  -- queue are all texts since the browser subscribed in `n`.
  pub record Follows (v : Session Message) : Type 0 where
    pub b : Process Message
    pub first : Message
    pub read : List Message
    pub before : Run json p n b
    pub after : Run json p b v.process
    pub greets : send_current_snapshot json b.app true ≡ some first
    pub since : Since n.app.ws_tx v.process.app.ws_tx (read ++ v.queue)
    pub sent : v.sent ≡ first ∷ send_task json (delivered json read)

  -- Nothing was sent yet, or what was sent follows what was broadcast.
  pub data Progress (v : Session Message) : Type 0 where
    silent :
        v.phase ≢ streaming
        → Run json p n v.process
        → Since n.app.ws_tx v.process.app.ws_tx v.queue
        → v.sent ≡ []
        → Progress v
    told : v.phase ≢ subscribed → Follows v → Progress v

  Since-append :
      (old mid now texts more : List Message)
      → Since old mid texts
      → Since mid now more
      → Since old now (texts ++ more)
  Since-append old mid now texts more e f = rw (f, e) (append_assoc old texts more)

  step-Progress :
      (v : Session Message) (o : Process Message) (texts : List Message)
      → Step json p v.process o
      → Since v.process.app.ws_tx o.app.ws_tx texts
      → Progress v
      → Progress (broadcast json v o texts)
  step-Progress v o texts st e (silent ne r since nothing) =
      silent ne (next r st)
        (Since-append n.app.ws_tx v.process.app.ws_tx o.app.ws_tx v.queue texts since e) nothing
  step-Progress v o texts st e (told ne h) = told ne (record {
    b = h.b;
    first = h.first;
    read = h.read;
    before = h.before;
    after = next h.after st;
    greets = h.greets;
    since =
        Since-append n.app.ws_tx v.process.app.ws_tx o.app.ws_tx (h.read ++ v.queue) texts h.since e
        ∙ ap (λ ws. n.app.ws_tx ++ ws) (append_assoc h.read v.queue texts);
    sent = h.sent;
  })

  forward-Follows :
      (v : Session Message) (t : Message) (rest : List Message)
      → v.queue ≡ t ∷ rest
      → Follows v
      → Follows (record v { queue = rest; sent = v.sent ++ t ∷ [] })
  forward-Follows v t rest e h = record {
    b = h.b;
    first = h.first;
    read = h.read ++ t ∷ [];
    before = h.before;
    after = h.after;
    greets = h.greets;
    since =
        h.since
        ∙ ap (λ ws. n.app.ws_tx ++ (h.read ++ ws)) e
        ∙ ap (λ ws. n.app.ws_tx ++ ws) (sym (append_assoc h.read (t ∷ []) rest));
    sent =
        ap (λ ws. ws ++ t ∷ []) h.sent
        ∙ rw (send_task-delivered json h.read, send_task-delivered json (h.read ++ t ∷ [])) refl;
  }

  ended-Follows : (v : Session Message) → Follows v → Follows (record v { phase = ended })
  ended-Follows v h = record {
    b = h.b;
    first = h.first;
    read = h.read;
    before = h.before;
    after = h.after;
    greets = h.greets;
    since = h.since;
    sent = h.sent;
  }

  move-Progress : (v w : Session Message) → Move json v w → Progress v → Progress w
  unfolding send_task
  move-Progress v w (task {o} texts t e) h = step-Progress v o texts (by_task t) e h
  move-Progress v w (greet m at made) (told ne h) = absurd (ne at)
  move-Progress v w (greet m at made) (silent ne r since nothing) =
      told (λ e. cc)
        (record {
          b = v.process;
          first = m;
          read = [];
          before = r;
          after = here;
          greets = greeting_lem json v.process ∙ made;
          since = since;
          sent = refl;
        })
  move-Progress v w (forward t rest at e fits) (silent ne r since nothing) = absurd (ne at)
  move-Progress v w (forward t rest at e fits) (told ne h) = told ne (forward-Follows v t rest e h)
  move-Progress v w (miss at lt) (silent ne r since nothing) = absurd (ne at)
  move-Progress v w (miss at lt) (told ne h) = told (λ e. cc) (ended-Follows v h)

  -- Whatever the process and the socket do after a browser has subscribed, the browser has been sent
  -- nothing, or one snapshot of a state since then, and after it what the sending task makes of the
  -- texts that were broadcast since it subscribed, in their order and without a gap, up to those
  -- that are still in its channel.
  pub Opened-Progress : (v : Session Message) → Opened json p n v → Progress v
  Opened-Progress v start = silent (λ e. cc) here (sym (append-nil n.app.ws_tx)) refl
  Opened-Progress w (later {v} r (move m)) = move-Progress v w m (Opened-Progress v r)
  Opened-Progress w (later {v} r (step {o} texts st e)) =
      step-Progress v o texts st e (Opened-Progress v r)
  Opened-Progress w (later {v} r fail) = elim (Opened-Progress v r) [
    | silent ne since_n since nothing ↦ silent (λ e. cc) since_n since nothing
    | told ne h ↦ told (λ e. cc) (ended-Follows v h)
  ]
