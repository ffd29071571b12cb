-- ===== src/TodoApp/Process/Sessions/Drains.antt =====
-- How the sending task of a browser keeps up with the tasks of the process.
use nettverksprogrammering_p.Base.{
  ◌≤◌, ◌≡◌, ◌≢◌, refl, sym, ap, inl, inr, some, List, [], ◌∷◌, ◌++◌, length, arith, Option-cases,
}
use mathlib.Core.List.{append-nil}
use nettverksprogrammering_p.TodoApp.Server.{Json}
use nettverksprogrammering_p.TodoApp.State.{TodoState, snapshot}
use nettverksprogrammering_p.TodoApp.Process.{
  Process, Task, read, show, notify, wake, lag, look, tell, encode, Tasks, idle, then_task,
}
use nettverksprogrammering_p.TodoApp.Process.Shown.{Since}
use nettverksprogrammering_p.TodoApp.Process.Sessions.{
  Phase, subscribed, streaming, ended, greet, ws_capacity, Session, broadcast, task, forward, Moves,
  still, and_move,
}

module _ (json : Json) where
  open json use {Message, to_string}

  -- A task broadcasts one text, or none.
  one_text :
      (old : List Message) (s : TodoState)
      → (texts : List Message) × Since old (old ++ encode json s) texts × (length texts ≤ 1)
  unfolding encode
  one_text old s = (
    encode json s,
    refl,
    elim (Option-cases (to_string (snapshot s))) [
      | inl fails ↦ rw (fails, encode) (omega arith)
      | inr (m, made) ↦ rw (made, encode) (omega arith)
    ],
  )

  no_text : (old : List Message) → (texts : List Message) × Since old old texts × (length texts ≤ 1)
  no_text old = ([], sym (append-nil old), omega arith)

  task_texts :
      (n o : Process Message)
      → Task json n o
      → (texts : List Message) × Since n.app.ws_tx o.app.ws_tx texts × (length texts ≤ 1)
  task_texts n o (read e) = no_text n.app.ws_tx
  task_texts n o (show before after s e) = one_text n.app.ws_tx s
  task_texts n o (notify e) = no_text n.app.ws_tx
  task_texts n o (wake f e le) = no_text n.app.ws_tx
  task_texts n o (lag f lt) = no_text n.app.ws_tx
  task_texts n o (look f) = no_text n.app.ws_tx
  task_texts n o (tell s f) = one_text n.app.ws_tx s

  pub Moves-trans : {u v w : Session Message} → Moves json u v → Moves json v w → Moves json u w
  Moves-trans r still = r
  Moves-trans r (and_move r' m) = and_move (Moves-trans r r') m

  -- The session goes on to one that is streaming with nothing in its channel.
  pub record Drains (v : Session Message) (o : Process Message) : Type 0 where
    pub result : Session Message
    pub moves : Moves json v result
    pub process : result.process ≡ o
    pub streams : result.phase ≡ streaming
    pub empty : result.queue ≡ []

  -- The sending task sends what is in the channel.
  drain :
      (ts : List Message) (v : Session Message)
      → v.queue ≡ ts
      → length ts ≤ ws_capacity
      → v.phase ≡ streaming
      → Drains v v.process
  drain [] v e fits at = record {
    result = v;
    moves = still;
    process = refl;
    streams = at;
    empty = e;
  }
  drain (t ∷ ts) v e fits at =
      let w : Session Message = record v { queue = ts; sent = v.sent ++ t ∷ [] } in
      let h = drain ts w refl (omega (arith, fits)) at in
      record {
        result = h.result;
        moves = Moves-trans (and_move still (forward t ts at e (rw e fits))) h.moves;
        process = h.process;
        streams = h.streams;
        empty = h.empty;
      }

  -- The process works, and the sending task keeps up with it.
  pub follow_tasks :
      (n o : Process Message) (v : Session Message)
      → Tasks json n o
      → v.process ≡ n
      → length v.queue ≤ ws_capacity
      → v.phase ≡ streaming
      → Drains v o
  follow_tasks n o v idle e fits at = rw (← e) (drain v.queue v refl fits at)
  follow_tasks n o v (then_task {m} r t) e fits at =
      let h = follow_tasks n m v r e fits at in
      let (texts, since, few) = task_texts h.result.process o (rw h.process t) in
      let w : Session Message = broadcast json h.result o texts in
      let same : w.queue ≡ texts = ap (λ q. q ++ texts) h.empty in
      let d = drain texts w same (omega (arith, few)) h.streams in
      record {
        result = d.result;
        moves = Moves-trans (and_move h.moves (task texts (rw h.process t) since)) d.moves;
        process = d.process;
        streams = d.streams;
        empty = d.empty;
      }

  -- The first snapshot is sent, if it was not.
  pub record Begins (v : Session Message) : Type 0 where
    pub result : Session Message
    pub moves : Moves json v result
    pub same_process : result.process ≡ v.process
    pub same_queue : result.queue ≡ v.queue
    pub streams : result.phase ≡ streaming

  pub begin :
      (phase : Phase) (v : Session Message) (m : Message)
      → v.phase ≡ phase
      → phase ≢ ended
      → to_string (snapshot v.process.app.inner) ≡ some m
      → Begins v
  begin subscribed v m at ne made = record {
    result = record v { phase = streaming; sent = m ∷ [] };
    moves = and_move still (greet m at made);
    same_process = refl;
    same_queue = refl;
    streams = refl;
  }
  begin streaming v m at ne made = record {
    result = v;
    moves = still;
    same_process = refl;
    same_queue = refl;
    streams = at;
  }
  begin ended v m at ne made = absurd (ne refl)
