-- ===== src/TodoApp/State/Effects.antt =====
-- What can have happened in an operation that returned, read off from its result.
use nettverksprogrammering_p.Base.{
  ℕ, ◌+◌, ◌≡◌, ◌⊎◌, inl, inr, true, none, some, arith, Bool-cases, Option-cases,
}
use nettverksprogrammering_p.Std.HashMap
use nettverksprogrammering_p.Std.HashMap.{HashMap}
use nettverksprogrammering_p.Std.Text.{Text, text_key, trim, is_empty}
use nettverksprogrammering_p.Std.Word
use nettverksprogrammering_p.Std.Word.{Profile, dev, u64_size}
use nettverksprogrammering_p.CrdtCore.GSet
use nettverksprogrammering_p.CrdtCore.GSet.Laws.{insert_lem}
use nettverksprogrammering_p.CrdtCore.VectorClock
use nettverksprogrammering_p.CrdtCore.VectorClock.{VectorClock}
use nettverksprogrammering_p.CrdtCore.VectorClock.Merge.{HasNoZeros, increment-HasNoZeros}
use nettverksprogrammering_p.TodoApp.Protocol.{ClientMessage}
use nettverksprogrammering_p.TodoApp.State.{
  TodoState, format_id, new_todo_id, store_todo, tick, add, toggle, delete, apply,
}

-- The operation made no todo.
pub record MadeNone (s s' : TodoState) : Type 0 where
  pub same_texts : s'.texts ≡ s.texts
  pub same_creators : s'.creators ≡ s.creators
  pub same_peer : s'.peer_id ≡ s.peer_id
  pub same_count : s'.next_local_id ≡ s.next_local_id

-- The operation made one todo, under the next id of the replica.
pub record MadeOne (s s' : TodoState) : Type 0 where
  pub title : Text
  pub new_text : s'.texts ≡ HashMap.insert s.texts (format_id s.peer_id (s.next_local_id + 1)) title
  pub new_creator :
      s'.creators ≡ HashMap.insert s.creators (format_id s.peer_id (s.next_local_id + 1)) s.peer_id
  pub same_peer : s'.peer_id ≡ s.peer_id
  pub next_count : s'.next_local_id ≡ s.next_local_id + 1

add_effect :
    (s s' : TodoState) (text : Text) → add dev s text ≡ some s' → MadeNone s s' ⊎ MadeOne s s'
unfolding add new_todo_id store_todo tick Word.add
add_effect s s' text h = elim (Bool-cases (is_empty (trim text))) [
  | inl blank ↦ inl (ground arith)
  | inr filled ↦ inr (record {
    title = trim text;
    new_text = ground arith;
    new_creator = ground arith;
    same_peer = ground arith;
    next_count = ground arith;
  })
]

-- An operation that returns has made no todo, or one under the next id of its replica.
pub apply_effect :
    (s s' : TodoState) (msg : ClientMessage)
    → apply dev s msg ≡ some s'
    → MadeNone s s' ⊎ MadeOne s s'
unfolding apply toggle delete tick
apply_effect s s' (ClientMessage.add text) h = add_effect s s' text h
apply_effect s s' (ClientMessage.toggle id) h = inl (ground arith)
apply_effect s s' (ClientMessage.delete id) h = inl (ground arith)
apply_effect s s' ClientMessage.resync h = inl (ground arith)

-- An operation that returns keeps what was removed.
pub apply-removed :
    (p : Profile) (s s' : TodoState) (msg : ClientMessage) (id : Text)
    → apply p s msg ≡ some s'
    → GSet.contains s.removed id ≡ true
    → GSet.contains s'.removed id ≡ true
unfolding apply add toggle delete tick new_todo_id store_todo
apply-removed p s s' (ClientMessage.add text) id h e = ground arith
apply-removed p s s' (ClientMessage.toggle j) id h e = ground arith
apply-removed p s s' (ClientMessage.delete j) id h e = ground (arith, (insert_lem s.removed j).1 id)
apply-removed p s s' ClientMessage.resync id h e = ground arith

-- A deletion of a known todo that returns has removed it.
pub delete-removed :
    (p : Profile) (s s' : TodoState) (id : Text)
    → GSet.contains s.added id ≡ true
    → apply p s (ClientMessage.delete id) ≡ some s'
    → GSet.contains s'.removed id ≡ true
unfolding apply delete tick
delete-removed p s s' id known h = ground (arith, (insert_lem s.removed id).1 id)

-- The clock stays, or is the one that `increment` returned.
clock_result :
    (s s' : TodoState) (msg : ClientMessage) (clock : VectorClock) (n : ℕ)
    → apply dev s msg ≡ some s'
    → VectorClock.increment dev s.clock s.replica_id ≡ some (clock, n)
    → (s'.clock ≡ s.clock) ⊎ (s'.clock ≡ clock)
unfolding apply add toggle delete tick new_todo_id store_todo Word.add
clock_result s s' (ClientMessage.add text) clock n h e = ground arith
clock_result s s' (ClientMessage.toggle id) clock n h e = ground arith
clock_result s s' (ClientMessage.delete id) clock n h e = ground arith
clock_result s s' ClientMessage.resync clock n h e = ground arith

clock_stays :
    (s s' : TodoState) (msg : ClientMessage)
    → apply dev s msg ≡ some s'
    → VectorClock.increment dev s.clock s.replica_id ≡ none
    → s'.clock ≡ s.clock
unfolding apply add toggle delete tick
clock_stays s s' (ClientMessage.add text) h e = ground arith
clock_stays s s' (ClientMessage.toggle id) h e = ground arith
clock_stays s s' (ClientMessage.delete id) h e = ground arith
clock_stays s s' ClientMessage.resync h e = ground arith

-- An operation that returns in the dev profile keeps the clock free of zeros.
pub apply-HasNoZeros :
    (s s' : TodoState) (msg : ClientMessage)
    → apply dev s msg ≡ some s'
    → HasNoZeros s.clock
    → HasNoZeros s'.clock
apply-HasNoZeros s s' msg h z =
    elim (Option-cases (VectorClock.increment dev s.clock s.replica_id)) [
      | inl e ↦ rw (clock_stays s s' msg h e) z
      | inr ((clock, n), e) ↦ elim (clock_result s s' msg clock n h e) [
        | inl same ↦ rw same z
        | inr ticked ↦ rw ticked (increment-HasNoZeros s.clock clock s.replica_id n z e)
      ]
    ]
