-- ===== src/TodoApp/Process/Sessions.antt =====
-- `handle_socket` of crates/todo-app/src/server.rs in a process: one browser's socket, the texts in
-- its channel, and what it has been sent, as steps that interleave with those of the process.
pub mod Follows
pub mod Drains
pub mod Catches
use nettverksprogrammering_p.Base.{ℕ, ◌≤◌, ◌<◌, ◌≡◌, some, List, [], ◌∷◌, ◌++◌, length}
use nettverksprogrammering_p.Std.Word.{Profile}
use nettverksprogrammering_p.TodoApp.Server.{Json}
use nettverksprogrammering_p.TodoApp.State.{snapshot}
use nettverksprogrammering_p.TodoApp.Process.{Process, Task, Step}
use nettverksprogrammering_p.TodoApp.Process.Shown.{Since}

-- The socket has subscribed, has been sent its first snapshot, or has ended.
pub data Phase : Type 0 where
  subscribed streaming ended : Phase

-- the capacity of `ws_tx`
abbrev pub ws_capacity : ℕ
ws_capacity = 64

-- `queue` are the texts that were broadcast and that `rx` has not received.
pub record Session (Message : Type 0) : Type 0 where
  pub process : Process Message
  pub phase : Phase
  pub queue : List Message
  pub sent : List Message

module _ (json : Json) where
  open json use {Message, to_string}

  abbrev pub subscribe : Process Message → Session Message
  subscribe n = record { process = n; phase = Phase.subscribed; queue = []; sent = [] }

  -- what the process broadcasts goes into the channel
  abbrev pub broadcast : Session Message → Process Message → List Message → Session Message
  broadcast v o texts = record v { process = o; queue = v.queue ++ texts }

  -- What goes on without input.
  pub data Move (v : Session Message) : Session Message → Type 0 where
    task :
        {o : Process Message} (texts : List Message)
        → Task json v.process o
        → Since v.process.app.ws_tx o.app.ws_tx texts
        → Move v (broadcast v o texts)
    -- `send_current_snapshot`
    greet :
        (m : Message)
        → v.phase ≡ Phase.subscribed
        → to_string (snapshot v.process.app.inner) ≡ some m
        → Move v (record v { phase = Phase.streaming; sent = m ∷ [] })
    -- `send_task` receives a text and sends it
    forward :
        (t : Message) (rest : List Message)
        → v.phase ≡ Phase.streaming
        → v.queue ≡ t ∷ rest
        → length v.queue ≤ ws_capacity
        → Move v (record v { queue = rest; sent = v.sent ++ t ∷ [] })
    -- `recv` gives the error that too many texts were missed, and `send_task` ends
    miss :
        v.phase ≡ Phase.streaming
        → ws_capacity < length v.queue
        → Move v (record v { phase = Phase.ended })

  pub data Moves (v : Session Message) : Session Message → Type 0 where
    still : Moves v v
    and_move : {w w' : Session Message} → Moves v w → Move w w' → Moves v w'

  module _ (p : Profile) where
    pub data Event (v : Session Message) : Session Message → Type 0 where
      move : {w : Session Message} → Move v w → Event v w
      -- a step of the process, which may have input
      step :
          {o : Process Message} (texts : List Message)
          → Step json p v.process o
          → Since v.process.app.ws_tx o.app.ws_tx texts
          → Event v (broadcast v o texts)
      -- the socket fails, the browser closes it, or the first snapshot is not sent
      fail : Event v (record v { phase = Phase.ended })

    -- What may have happened since a browser subscribed.
    pub data Opened (n : Process Message) : Session Message → Type 0 where
      start : Opened n (subscribe n)
      later : {v w : Session Message} → Opened n v → Event v w → Opened n w
