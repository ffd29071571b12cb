-- ===== src/TodoApp/Process.antt =====
-- One peer's process: the tasks of crates/todo-app/src/server.rs and main.rs and those of
-- crates/crdt-sync/src/lib.rs, which share the state, as interleaved steps. A task that calls
-- `broadcast_snapshot` reads the state in one step and sends the text in a later one, since the lock
-- is free in between.
pub mod Aborts
pub mod Browsers
pub mod Sessions
pub mod Settles
pub mod Shown
pub mod Stale
use nettverksprogrammering_p.Base.{
  ℕ, zero, suc, ◌+◌, ◌≤◌, ◌<◌, ◌≡◌, Bool, true, false, Option, none, some, List, [], ◌∷◌, ◌++◌,
}
use nettverksprogrammering_p.Std.Word.{Profile}
use nettverksprogrammering_p.TodoApp.Protocol.{ClientMessage}
use nettverksprogrammering_p.TodoApp.Server
use nettverksprogrammering_p.TodoApp.Server.{Json, AppState, count_up}
use nettverksprogrammering_p.TodoApp.State.{TodoState, apply, merge, snapshot}

-- The task that `main` spawns: it waits for an update, has received one and is about to read the
-- state, holds what it read, or its loop has ended.
pub data Follower : Type 0 where
  waiting woken ended : Follower
  holding : TodoState → Follower

-- the capacity of `on_remote_update`
abbrev pub channel_capacity : ℕ
channel_capacity = 16

-- `owed` are the browsers' tasks that have applied an operation and are about to read the state,
-- `taken` the states that such tasks have read and not sent, `merged` the connections that have
-- merged a state and not said so, and `queued` the updates in the channel. `unshown` says that a
-- browser's task was aborted before it read the state, and that no change has come since.
pub record Process (Message : Type 0) : Type 0 where
  pub app : AppState Message
  pub owed : ℕ
  pub taken : List TodoState
  pub merged : ℕ
  pub queued : ℕ
  pub follower : Follower
  pub unshown : Bool

module _ (json : Json) where
  open json use {Message, to_string}

  -- the texts that the end of `broadcast_snapshot` sends: one, or none if there is an error
  pub encode : TodoState → List Message
  encode s = elim (to_string (snapshot s)) [ none ↦ [] | some message ↦ message ∷ [] ]

  abbrev pub with_inner : AppState Message → TodoState → AppState Message
  with_inner app s = record app { inner = s }

  abbrev pub send : AppState Message → TodoState → AppState Message
  send app s = record app { ws_tx = app.ws_tx ++ encode s }

  -- the end of `AppState::new` and `with_sync_notifier` in `main`
  abbrev pub start : TodoState → Process Message
  start s = record {
    app = record { inner = s; ws_tx = []; sync_notify = some 0 };
    owed = 0;
    taken = [];
    merged = 0;
    queued = 0;
    follower = Follower.waiting;
    unshown = false;
  }

  -- A request was applied to the state, and the sync layer notified; the snapshot is owed.
  abbrev pub acted : Process Message → TodoState → Process Message
  acted n s = record n {
    app = record n.app { inner = s; sync_notify = count_up n.app.sync_notify };
    owed = suc n.owed;
    unshown = false;
  }

  -- A state that arrived was merged; the update is not sent yet.
  abbrev pub absorbed : Process Message → TodoState → Process Message
  absorbed n remote = record n {
    app = with_inner n.app (merge n.app.inner remote);
    merged = suc n.merged;
    unshown = false;
  }

  -- `handle_socket` aborts `recv_task`, which waits for the lock in `broadcast_snapshot`; `k` are the
  -- other tasks that wait there.
  abbrev pub aborted : Process Message → ℕ → Process Message
  aborted n k = record n { owed = k; unshown = true }

  -- The steps that need nothing from outside.
  pub data Task (n : Process Message) : Process Message → Type 0 where
    -- `apply_and_broadcast` after the notification: the state is read, and sent in a later step
    read : {k : ℕ} → n.owed ≡ suc k → Task n (record n { owed = k; taken = n.app.inner ∷ n.taken })
    -- the tasks send in any order
    show :
        (before after : List TodoState) (s : TodoState)
        → n.taken ≡ before ++ s ∷ after
        → Task n (record n { app = send n.app s; taken = before ++ after })
    -- `serve_incoming` after it has merged a state
    notify : {k : ℕ} → n.merged ≡ suc k → Task n (record n { merged = k; queued = suc n.queued })
    -- `recv` gives an update, or the error that too many were missed, which ends the loop
    wake :
        {k : ℕ}
        → n.follower ≡ Follower.waiting
        → n.queued ≡ suc k
        → n.queued ≤ channel_capacity
        → Task n (record n { queued = k; follower = Follower.woken })
    lag :
        n.follower ≡ Follower.waiting
        → channel_capacity < n.queued
        → Task n (record n { follower = Follower.ended })
    look :
        n.follower ≡ Follower.woken → Task n (record n { follower = Follower.holding n.app.inner })
    tell :
        (s : TodoState)
        → n.follower ≡ Follower.holding s
        → Task n (record n { app = send n.app s; follower = Follower.waiting })

  pub data Step (p : Profile) (n : Process Message) : Process Message → Type 0 where
    -- `apply_and_broadcast` up to the notification
    act :
        (msg : ClientMessage) {s : TodoState}
        → apply p n.app.inner msg ≡ some s
        → Step p n (acted n s)
    -- `serve_incoming` at a `State` message
    receive : (remote : TodoState) → Step p n (absorbed n remote)
    -- the socket of a browser has failed
    abort : {k : ℕ} → n.owed ≡ suc k → Step p n (aborted n k)
    task : {o : Process Message} → Task n o → Step p n o

  pub data Run (p : Profile) (n : Process Message) : Process Message → Type 0 where
    here : Run p n n
    next : {m o : Process Message} → Run p n m → Step p m o → Run p n o

  -- A run without input.
  pub data Tasks (n : Process Message) : Process Message → Type 0 where
    idle : Tasks n n
    then_task : {m o : Process Message} → Tasks n m → Task m o → Tasks n o

  -- The state that the step merges, if any, satisfies the predicate.
  unfoldable pub StepReceives :
      {p : Profile} {n o : Process Message} (P : TodoState → Type 0) → Step p n o → Type 0
  StepReceives P (receive remote) = P remote
  StepReceives P _ = Unit
