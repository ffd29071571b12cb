-- ===== src/CrdtSync/Changes.antt =====
-- The channel of local changes of crates/crdt-sync/src/lib.rs: what the application sends into it,
-- and what a connection does in `drive_outgoing`, as steps that interleave on the shared state.
pub mod Pushed
pub mod Drives
use nettverksprogrammering_p.Base.{ℕ, suc, ◌≤◌, ◌<◌, ◌≡◌, ◌≢◌, Option, none, some, List, [], ◌∷◌}
use nettverksprogrammering_p.CrdtCore.Traits.{CvRdt}
use nettverksprogrammering_p.CrdtSync.{Wake}

-- The connection has subscribed and has not pushed yet, waits in `select!`, has woken up and is about
-- to push, or has ended.
pub data Phase : Type 0 where
  subscribed waiting ended : Phase
  woken : Wake → Phase

-- the capacity of `on_local_change`
abbrev pub change_capacity : ℕ
change_capacity = 16

-- `untold` are the operations that are written and whose notification is not sent yet, `changes` the
-- notifications that `change_rx` has not received, `first` the state that went out after the greeting,
-- and `turns` what the loop woke up for with the state that went out then, the last one first.
pub record Outgoing (S : Type 0) : Type 0 where
  pub state : S
  pub untold : ℕ
  pub changes : ℕ
  pub phase : Phase
  pub first : Option S
  pub turns : List (Wake × S)

module _ {S : Type 0} where
  -- `spawn_outgoing` at a new connection
  abbrev pub subscribe : S → ℕ → Outgoing S
  subscribe s untold = record {
    state = s;
    untold = untold;
    changes = 0;
    phase = Phase.subscribed;
    first = none;
    turns = [];
  }

  -- the state that went out last
  abbrev last_of : Option S → List (Wake × S) → Option S
  last_of first [] = first
  last_of first ((w, s) ∷ turns) = some s

  abbrev pub last_pushed : Outgoing S → Option S
  last_pushed v = last_of v.first v.turns

  -- What goes on without input.
  pub data Task (v : Outgoing S) : Outgoing S → Type 0 where
    -- the application fires `change_notifier()`
    notify : {k : ℕ} → v.untold ≡ suc k → Task v (record v { untold = k; changes = suc v.changes })
    -- the push after the greeting, and the pushes of the loop
    first_push :
        v.phase ≡ Phase.subscribed
        → Task v (record v { phase = Phase.waiting; first = some v.state; turns = [] })
    push :
        (w : Wake)
        → v.phase ≡ Phase.woken w
        → Task v (record v { phase = Phase.waiting; turns = (w, v.state) ∷ v.turns })
    -- `change_rx.recv()`
    wake :
        {k : ℕ}
        → v.phase ≡ Phase.waiting
        → v.changes ≡ suc k
        → v.changes ≤ change_capacity
        → Task v (record v { phase = Phase.woken Wake.changed; changes = k })
    lag :
        v.phase ≡ Phase.waiting
        → change_capacity < v.changes
        → Task v (record v { phase = Phase.ended })
    -- `ticker.tick()`
    tick : v.phase ≡ Phase.waiting → Task v (record v { phase = Phase.woken Wake.ticked })

  pub data Tasks (v : Outgoing S) : Outgoing S → Type 0 where
    idle : Tasks v v
    then_task : {w x : Outgoing S} → Tasks v w → Task w x → Tasks v x

  module _ (cvrdt : CvRdt S) where
    pub data Step (v : Outgoing S) : Outgoing S → Type 0 where
      task : {w : Outgoing S} → Task v w → Step v w
      -- the application changes the state
      operate : (s : S) → Step v (record v { state = s; untold = suc v.untold })
      -- `serve_incoming` merges a state, and sends nothing into this channel
      receive : (remote : S) → Step v (record v { state = cvrdt.merge v.state remote })
      -- the codec or the socket fails
      fail : Step v (record v { phase = Phase.ended })

    pub data Run (v : Outgoing S) : Outgoing S → Type 0 where
      here : Run v v
      next : {w x : Outgoing S} → Run v w → Step w x → Run v x

    -- The second state is the first one with remote states merged into it.
    pub data OnlyMerges (s : S) : S → Type 0 where
      same : OnlyMerges s s
      and_merge : {t : S} (remote : S) → OnlyMerges s t → OnlyMerges s (cvrdt.merge t remote)
