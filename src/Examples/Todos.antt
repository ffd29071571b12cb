-- ===== src/Examples/Todos.antt =====
-- One replica of the todo list: `b'n' ∷ []` is the peer `n`, whose first todo is `n-1`.
use nettverksprogrammering_p.Base.{
  ◌+◌, ◌≡◌, refl, true, false, some, arith, ite, not, unwrap_or, In, first, ℕ_discrete,
}
use nettverksprogrammering_p.Std.HashMap
use nettverksprogrammering_p.Std.HashMap.{HashMap, nat_key, get-insert, get-new}
use nettverksprogrammering_p.Std.HashMap.Entries.{put, lookup}
use nettverksprogrammering_p.Std.Text.{Text, text_key, text_discrete, trim, codes}
use nettverksprogrammering_p.Std.Text.Decimal.{to_decimal, digits}
use nettverksprogrammering_p.Std.Word.{dev, add as add_word}
use nettverksprogrammering_p.Std.HashSet
use nettverksprogrammering_p.CrdtCore.GSet
use nettverksprogrammering_p.CrdtCore.VectorClock
use nettverksprogrammering_p.CrdtCore.VectorClock.Merge.{
  HasNoZeros, new-HasNoZeros, increment-HasNoZeros,
}
use nettverksprogrammering_p.TodoApp.Protocol.{TodoItem, ClientMessage}
use nettverksprogrammering_p.TodoApp.State
use nettverksprogrammering_p.TodoApp.State.{TodoState}
use nettverksprogrammering_p.TodoApp.State.Apply.{
  HasRoom, is_visible, next_id, add_fits, toggle_fits,
}

abbrev pub peer : Text
peer = codes "a"

abbrev pub fresh : TodoState
fresh = State.new peer 1

fresh-HasRoom : HasRoom fresh
unfolding State.new VectorClock.get VectorClock.new HashMap.get HashMap.new lookup
fresh-HasRoom = record { ticks = omega arith; counts = omega arith }

-- the state after the browser of `a` adds "tea"
abbrev pub one : TodoState
one =
    State.store_todo
      (record fresh {
        next_local_id = 1;
        clock = record { entries = HashMap.insert HashMap.new 1 1 };
      })
      (codes "a-1") (codes "tea")

abbrev pub one_removed : TodoState
one_removed = record one { removed = (GSet.insert one.removed (codes "a-1")).0 }

-- the state after it adds "milk" then
abbrev pub two : TodoState
two =
    State.store_todo
      (record one_removed {
        next_local_id = 2;
        clock = record { entries = HashMap.insert one.clock.entries 1 2 };
      })
      (codes "a-2") (codes "milk")

pub add-one : State.apply dev fresh (ClientMessage.add (codes " tea ")) ≡ some one
unfolding State.apply State.add State.tick State.new_todo_id State.format_id State.new
    State.store_todo trim to_decimal digits VectorClock.increment VectorClock.new HashMap.new
    HashMap.get HashMap.insert lookup put add_word GSet.insert HashSet.insert GSet.new
add-one = refl

pub add-two : State.apply dev one_removed (ClientMessage.add (codes "milk")) ≡ some two
unfolding State.apply State.add State.tick State.new_todo_id State.format_id State.new
    State.store_todo trim to_decimal digits VectorClock.increment VectorClock.new HashMap.new
    HashMap.get HashMap.insert lookup put add_word GSet.insert HashSet.insert GSet.new ℕ_discrete
add-two = refl

abbrev pub milk : TodoItem
milk = record { id = codes "a-2"; text = codes "milk"; completed = false; created_by = peer }

pub shown-two : In milk (State.todos two)
unfolding State.todos State.sort_items State.insert_item State.collect_items State.todo_item
    State.store_todo State.new GSet.iter HashMap.keys GSet.insert HashSet.insert GSet.contains
    HashMap.contains_key HashMap.get HashMap.new HashMap.insert lookup put text_discrete ℕ_discrete
    GSet.new
shown-two = first

pub clock-one : HasNoZeros one.clock
unfolding State.store_todo VectorClock.increment VectorClock.new HashMap.get HashMap.new lookup
    add_word
clock-one = increment-HasNoZeros VectorClock.new one.clock 1 1 new-HasNoZeros refl

add_fits_example :
    (s' : TodoState) × (State.add dev fresh (codes " tea ") ≡ some s')
    × ((j : Text)
        → HashMap.get s'.texts j
          ≡ ite
              (text_discrete (next_id fresh) j)
              (some (trim (codes " tea ")))
              (HashMap.get fresh.texts j))
    × ((j : Text)
        → HashMap.get s'.creators j
          ≡ ite
              (text_discrete (next_id fresh) j)
              (some fresh.peer_id)
              (HashMap.get fresh.creators j))
    × ((j : Text)
        → HashMap.get s'.completed j
          ≡ ite (text_discrete (next_id fresh) j) (some false) (HashMap.get fresh.completed j))
    × ((j : Text)
        → GSet.contains s'.added j
          ≡ ite (text_discrete (next_id fresh) j) true (GSet.contains fresh.added j))
    × (s'.removed ≡ fresh.removed)
    × (s'.next_local_id ≡ fresh.next_local_id + 1)
    × (VectorClock.happens_before fresh.clock s'.clock ≡ true)
unfolding trim
add_fits_example = add_fits dev fresh (codes " tea ") fresh-HasRoom refl

pub one-HasRoom : HasRoom one
unfolding State.store_todo State.new VectorClock.get HashMap.get HashMap.new HashMap.insert lookup
    put ℕ_discrete
one-HasRoom = record { ticks = omega arith; counts = omega arith }

toggle_fits_example :
    (s' : TodoState) × (State.toggle dev one (codes "a-1") ≡ some s')
    × ((j : Text)
        → HashMap.get s'.completed j
          ≡ ite
              (text_discrete (codes "a-1") j)
              (some (not (unwrap_or (HashMap.get one.completed (codes "a-1")) false)))
              (HashMap.get one.completed j))
    × ((j : Text) → is_visible s' j ≡ is_visible one j)
    × (s'.texts ≡ one.texts)
    × (VectorClock.happens_before one.clock s'.clock ≡ true)
unfolding is_visible State.store_todo State.new GSet.new GSet.insert HashSet.insert GSet.contains
    HashMap.contains_key HashMap.get HashMap.new HashMap.insert lookup put text_discrete ℕ_discrete
toggle_fits_example = toggle_fits dev one (codes "a-1") one-HasRoom refl
