-- ===== src/CrdtSync/Changes/Pushed.antt =====
-- What a connection has pushed of the operations of its peer.
use nettverksprogrammering_p.Base.{ℕ, zero, suc, ◌≤◌, ◌≡◌, ◌≢◌, refl, ◌∙◌, some, [], ◌∷◌, arith}
use nettverksprogrammering_p.CrdtCore.Traits.{CvRdt}
use nettverksprogrammering_p.CrdtSync.{Wake, changed}
use nettverksprogrammering_p.CrdtSync.Changes.{
  Phase, subscribed, waiting, woken, ended, change_capacity, Outgoing, subscribe, Task, notify,
  first_push, push, wake, lag, tick, last_pushed, Tasks, idle, then_task, task, operate, receive,
  fail, Run, here, next, OnlyMerges, same, and_merge,
}

module _ {S : Type 0} (cvrdt : CvRdt S) where
  -- The last push has all operations, or something is on its way that leads to a push.
  data Covered (v : Outgoing S) : Type 0 where
    has_pushed : (p : S) → last_pushed v ≡ some p → OnlyMerges cvrdt p v.state → Covered v
    telling : {k : ℕ} → v.untold ≡ suc k → Covered v
    queueing : {k : ℕ} → v.changes ≡ suc k → Covered v
    starting : v.phase ≡ subscribed → Covered v
    pushing : (b : Wake) → v.phase ≡ woken b → Covered v
    over : v.phase ≡ ended → Covered v

  cover_task : (v w : Outgoing S) → Task v w → Covered v → Covered w
  cover_task v w (notify e) c = queueing refl
  cover_task v w (first_push at) c = has_pushed v.state refl same
  cover_task v w (push b at) c = has_pushed v.state refl same
  cover_task v w (wake at e fits) c = pushing _ refl
  cover_task v w (lag at lt) c = over refl
  cover_task v w (tick at) c = pushing _ refl

  cover_receive :
      (v : Outgoing S) (remote : S)
      → Covered v
      → Covered (record v { state = cvrdt.merge v.state remote })
  cover_receive v remote (has_pushed p e m) = has_pushed p e (and_merge remote m)
  cover_receive v remote (telling e) = telling e
  cover_receive v remote (queueing e) = queueing e
  cover_receive v remote (starting e) = starting e
  cover_receive v remote (pushing b e) = pushing b e
  cover_receive v remote (over e) = over e

  covered : (s : S) (k : ℕ) {v : Outgoing S} → Run cvrdt (subscribe s k) v → Covered v
  covered s k here = starting refl
  covered s k (next {w} {x} r (task t)) = cover_task w x t (covered s k r)
  covered s k (next r (operate t)) = telling refl
  covered s k (next {w} r (receive remote)) = cover_receive w remote (covered s k r)
  covered s k (next r fail) = over refl

  -- Whatever operations, merges, notifications and pushes have interleaved since a connection
  -- subscribed: when it waits, and neither an operation nor a notification is pending, then the
  -- state that it pushed last has all operations of the peer, since the current state is that one
  -- with remote states merged into it.
  pub waiting-OnlyMerges :
      (s : S) (k : ℕ) (v : Outgoing S)
      → Run cvrdt (subscribe s k) v
      → v.phase ≡ waiting
      → v.untold ≡ 0
      → v.changes ≡ 0
      → (p : S) × (last_pushed v ≡ some p) × OnlyMerges cvrdt p v.state
  waiting-OnlyMerges s k v r at told empty = elim (covered s k r) [
    | has_pushed p e m ↦ (p, e, m)
    | telling e ↦ absurd (omega (arith, told, e))
    | queueing e ↦ absurd (omega (arith, empty, e))
    | starting e ↦ cc
    | pushing b e ↦ cc
    | over e ↦ cc
  ]

  record Settles (v : Outgoing S) : Type 0 where
    result : Outgoing S
    run : Tasks v result
    same_state : result.state ≡ v.state
    waits : result.phase ≡ waiting
    told : result.untold ≡ 0
    empty : result.changes ≡ 0

  Tasks-trans : {u v w : Outgoing S} → Tasks u v → Tasks v w → Tasks u w
  Tasks-trans r idle = r
  Tasks-trans r (then_task r' t) = then_task (Tasks-trans r r') t

  tasks-Settles : (v w : Outgoing S) → Tasks v w → w.state ≡ v.state → Settles w → Settles v
  tasks-Settles v w r e h = record {
    result = h.result;
    run = Tasks-trans r h.run;
    same_state = h.same_state ∙ e;
    waits = h.waits;
    told = h.told;
    empty = h.empty;
  }

  -- A notification is received, and the state pushed.
  push_once :
      (k : ℕ) (v : Outgoing S)
      → v.phase ≡ waiting
      → v.changes ≡ suc k
      → suc k ≤ change_capacity
      → Tasks v (record v { phase = waiting; changes = k; turns = (changed, v.state) ∷ v.turns })
  push_once k v at e fits =
      then_task (then_task idle (wake at e (omega (arith, fits, e)))) (push changed refl)

  tell_all : (k : ℕ) (v : Outgoing S) → v.untold ≡ k → v.changes ≡ 0 → v.phase ≡ waiting → Settles v
  tell_all zero v told empty at = record {
    result = v;
    run = idle;
    same_state = refl;
    waits = at;
    told = told;
    empty = empty;
  }
  tell_all (suc k) v told empty at =
      let w : Outgoing S = record v { untold = k; changes = suc v.changes } in
      tasks-Settles v
        (record v { untold = k; phase = waiting; turns = (changed, v.state) ∷ v.turns })
        (Tasks-trans (then_task idle (notify told))
          (push_once v.changes w at refl (omega (arith, empty))))
        refl (tell_all k _ refl empty refl)

  push_queued :
      (k : ℕ) (v : Outgoing S) → v.changes ≡ k → k ≤ change_capacity → v.phase ≡ waiting → Settles v
  push_queued zero v e fits at = tell_all v.untold v refl e at
  push_queued (suc k) v e fits at =
      tasks-Settles v
        (record v { phase = waiting; changes = k; turns = (changed, v.state) ∷ v.turns })
        (push_once k v at e fits) refl (push_queued k _ refl (omega (arith, fits)) refl)

  settle :
      (phase : Phase) (v : Outgoing S)
      → v.phase ≡ phase
      → phase ≢ ended
      → v.changes ≤ change_capacity
      → Settles v
  settle subscribed v at ne fits =
      tasks-Settles v (record v { phase = waiting; first = some v.state; turns = [] })
        (then_task idle (first_push at)) refl (push_queued v.changes _ refl fits refl)
  settle waiting v at ne fits = push_queued v.changes v refl fits at
  settle (woken b) v at ne fits =
      tasks-Settles v (record v { phase = waiting; turns = (b, v.state) ∷ v.turns })
        (then_task idle (push b at)) refl (push_queued v.changes _ refl fits refl)
  settle ended v at ne fits = absurd (ne refl)

  tasks-Run : {u v w : Outgoing S} → Run cvrdt u v → Tasks v w → Run cvrdt u w
  tasks-Run r idle = r
  tasks-Run r (then_task r' t) = next (tasks-Run r r') (task t)

  -- A connection that has subscribed, has not ended and has missed no notification can go on with
  -- nothing from outside until it waits and nothing is pending, while the state stays as it is. Then
  -- the state that it pushed last has all operations of the peer: the state is that one with remote
  -- states merged into it.
  pub operations_get_pushed :
      (s : S) (k : ℕ) (v : Outgoing S)
      → Run cvrdt (subscribe s k) v
      → v.phase ≢ ended
      → v.changes ≤ change_capacity
      → (w : Outgoing S) × Tasks v w
        × (w.phase ≡ waiting)
        × (w.untold ≡ 0)
        × (w.changes ≡ 0)
        × (w.state ≡ v.state)
        × (p : S) × (last_pushed w ≡ some p)
        × OnlyMerges cvrdt p w.state
  operations_get_pushed s k v r open_still fits =
      let h = settle v.phase v refl open_still fits in
      let (p, e, merges) =
        waiting-OnlyMerges s k h.result (tasks-Run r h.run) h.waits h.told h.empty in
      (h.result, h.run, h.waits, h.told, h.empty, h.same_state, p, e, merges)
