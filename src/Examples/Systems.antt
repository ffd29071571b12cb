-- ===== src/Examples/Systems.antt =====
-- A run of the system in which the peers are called by their numbers: peer 0 adds a todo and pushes
-- its state, and peer 1 merges it.
use nettverksprogrammering_p.Base.{ℕ, ℕ_discrete, refl, [], ◌∷◌, In, first, next}
use nettverksprogrammering_p.Std.HashMap
use nettverksprogrammering_p.Std.HashMap.{nat_key}
use nettverksprogrammering_p.Std.HashMap.Entries.{put, lookup}
use nettverksprogrammering_p.Std.Text.{codes, text_key, text_discrete, trim}
use nettverksprogrammering_p.Std.Text.Decimal.{to_decimal, digits, to_decimal-injective}
use nettverksprogrammering_p.Std.Word.{add as add_word}
use nettverksprogrammering_p.Std.HashSet
use nettverksprogrammering_p.CrdtCore.GSet
use nettverksprogrammering_p.CrdtCore.VectorClock
use nettverksprogrammering_p.CrdtCore.Traits.Delivery.{merge_all}
use nettverksprogrammering_p.TodoApp.Protocol.{ClientMessage}
use nettverksprogrammering_p.TodoApp.State
use nettverksprogrammering_p.TodoApp.State.{TodoState}
use nettverksprogrammering_p.TodoApp.State.Merge.{Same}
use nettverksprogrammering_p.TodoApp.System.{
  wire, update, System, act, push, receive, init, Reach, start, later,
}
use nettverksprogrammering_p.TodoApp.System.Makers.{
  Mentions, as_added, of_replica, KnowsMaker, Reach-KnowsMaker,
}
use nettverksprogrammering_p.TodoApp.System.Agreement.{deliveries_converge}

abbrev pub own_number : ℕ → ℕ
own_number i = i

-- peer 0 after it adds "tea"
abbrev pub added : TodoState
added =
    State.store_todo
      (record (State.new (to_decimal 0) 0) {
        next_local_id = 1;
        clock = record { entries = HashMap.insert HashMap.new 0 1 };
      })
      (codes "0-1") (codes "tea")

abbrev pub s1 : System
s1 = record (init to_decimal own_number) {
  replica = update (λ i. State.new (to_decimal i) i) 0 added;
}

abbrev s2 : System
s2 = record s1 { sent = wire (s1.replica 0) ∷ [] }

abbrev pub s3 : System
s3 = record s2 { replica = update s2.replica 1 (State.merge (s2.replica 1) (wire (s1.replica 0))) }

pub reached : Reach to_decimal own_number s3
unfolding State.apply State.add State.tick State.new_todo_id State.format_id State.new
    State.store_todo trim to_decimal digits VectorClock.increment VectorClock.new HashMap.new
    HashMap.get HashMap.insert lookup put add_word GSet.insert HashSet.insert GSet.new
reached =
    later (later (later start (act 0 (ClientMessage.add (codes "tea")) refl)) (push 0))
      (receive 1 first)

merged_id : Mentions (s3.replica 1) (codes "0-1")
unfolding State.merge State.new State.store_todo GSet.merge GSet.insert GSet.contains GSet.new
    HashSet.extend HashSet.insert HashMap.contains_key HashMap.get HashMap.new HashMap.insert lookup
    put wire text_discrete ℕ_discrete
merged_id = as_added refl

Reach-KnowsMaker_example : KnowsMaker to_decimal s3 (s3.replica 1) (codes "0-1")
Reach-KnowsMaker_example =
    Reach-KnowsMaker to_decimal to_decimal-injective own_number s3 (s3.replica 1) (codes "0-1")
      reached (of_replica 1) merged_id

abbrev pushed_state : TodoState
pushed_state = wire (s1.replica 0)

once : (x : TodoState) → In x (pushed_state ∷ pushed_state ∷ []) → In x (pushed_state ∷ [])
once x first = first
once x (next m) = m

deliveries_converge_example :
    Same
      (merge_all State.cvrdt (s3.replica 2) (pushed_state ∷ []))
      (merge_all State.cvrdt (s3.replica 2) (pushed_state ∷ pushed_state ∷ []))
deliveries_converge_example =
    deliveries_converge to_decimal to_decimal-injective own_number s3 reached 2 (pushed_state ∷ [])
      (pushed_state ∷ pushed_state ∷ []) (λ x m. m) (λ x m. next m) once
