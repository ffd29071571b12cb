-- ===== src/TodoApp/State/Total.antt =====
-- The room that operations need in the clock and the ids of the replica.
use nettverksprogrammering_p.Base.{
  ℕ, suc, ◌+◌, ◌≤◌, ◌<◌, ◌≡◌, refl, some, arith, unwrap_or, Bool-cases, inl, inr, false, ◌||◌,
}
use mathlib.Core.Bool.{not}
use nettverksprogrammering_p.Std.HashMap
use nettverksprogrammering_p.Std.Text.{Text, text_key, trim, is_empty}
use nettverksprogrammering_p.Std.Word
use nettverksprogrammering_p.Std.Word.{Profile, u64_size}
use nettverksprogrammering_p.CrdtCore.GSet
use nettverksprogrammering_p.CrdtCore.VectorClock
use nettverksprogrammering_p.CrdtCore.VectorClock.{VectorClock}
use nettverksprogrammering_p.CrdtCore.VectorClock.Order.{increment_advances}
use nettverksprogrammering_p.TodoApp.Protocol.{ClientMessage}
use nettverksprogrammering_p.TodoApp.State.{
  TodoState, format_id, new_todo_id, store_todo, tick, add, toggle, delete, apply,
}

abbrev pub own_entry : TodoState → ℕ
own_entry s = VectorClock.get s.clock s.replica_id

-- There is room for `n` more operations.
pub record HasRoomFor (n : ℕ) (s : TodoState) : Type 0 where
  pub ticks : own_entry s + n < u64_size
  pub counts : s.next_local_id + n < u64_size

-- The operation moved the counts of the replica by one at most.
pub record MovesByOne (s s' : TodoState) : Type 0 where
  pub entry_bound : own_entry s' ≤ own_entry s + 1
  pub count_bound : s'.next_local_id ≤ s.next_local_id + 1

MovesByOne-refl : (s : TodoState) → MovesByOne s s
MovesByOne-refl s = record { entry_bound = omega arith; count_bound = omega arith }

-- what the clock holds for the replica after a tick
abbrev Ticked : Profile → TodoState → VectorClock → Type 0
Ticked p s clock =
    (tick p s ≡ some (record s { clock = clock }))
    × (VectorClock.get clock s.replica_id ≡ own_entry s + 1)

tick_room :
    (p : Profile) (s : TodoState)
    → own_entry s + 1 < u64_size
    → (clock : VectorClock) × Ticked p s clock
unfolding tick
tick_room p s room =
    let (clock, returns, entry, _) = increment_advances p s.clock s.replica_id room in
    (clock, (rw returns, ground (arith, entry s.replica_id)))

add_room :
    (p : Profile) (s : TodoState) (text : Text) (clock : VectorClock)
    → Ticked p s clock
    → s.next_local_id + 1 < u64_size
    → (s' : TodoState) × (add p s text ≡ some s') × MovesByOne s s'
unfolding add new_todo_id store_todo
add_room p s text clock (ticks, at) room = elim (Bool-cases (is_empty (trim text))) [
  | inl blank ↦ (s, rw blank, MovesByOne-refl s)
  | inr filled ↦ (
    store_todo (record s { clock = clock; next_local_id = s.next_local_id + 1 })
        (format_id s.peer_id (s.next_local_id + 1)) (trim text),
    rw (filled, ticks, Word.add_fits p u64_size s.next_local_id 1 room),
    record { entry_bound = omega (arith, at); count_bound = omega arith },
  )
]

toggle_room :
    (p : Profile) (s : TodoState) (id : Text) (clock : VectorClock)
    → Ticked p s clock
    → (s' : TodoState) × (toggle p s id ≡ some s') × MovesByOne s s'
unfolding toggle
toggle_room p s id clock (ticks, at) =
    elim (Bool-cases (not (GSet.contains s.added id) || GSet.contains s.removed id)) [
      | inl hidden ↦ (s, rw hidden, MovesByOne-refl s)
      | inr shown ↦ (
        record s {
          clock = clock;
          completed =
              HashMap.insert s.completed id (not (unwrap_or (HashMap.get s.completed id) false));
        },
        rw (shown, ticks),
        record { entry_bound = omega (arith, at); count_bound = omega arith },
      )
    ]

delete_room :
    (p : Profile) (s : TodoState) (id : Text) (clock : VectorClock)
    → Ticked p s clock
    → (s' : TodoState) × (delete p s id ≡ some s') × MovesByOne s s'
unfolding delete
delete_room p s id clock (ticks, at) = elim (Bool-cases (not (GSet.contains s.added id))) [
  | inl unknown ↦ (s, rw unknown, MovesByOne-refl s)
  | inr known ↦ (
    record s { clock = clock; removed = (GSet.insert s.removed id).0 },
    rw (known, ticks),
    record { entry_bound = omega (arith, at); count_bound = omega arith },
  )
]

-- An operation on a state with room returns, and uses up room for one operation at most.
pub apply_room :
    (p : Profile) (s : TodoState) (msg : ClientMessage) (n : ℕ)
    → HasRoomFor (suc n) s
    → (s' : TodoState) × (apply p s msg ≡ some s') × HasRoomFor n s'
unfolding apply
apply_room p s msg n room =
    let (clock, ticked) = tick_room p s (omega (arith, room.ticks)) in
    let (s', returns, moves) = by_case msg clock ticked in
    (
      s',
      returns,
      record {
        ticks = omega (arith, room.ticks, moves.entry_bound);
        counts = omega (arith, room.counts, moves.count_bound);
      },
    )
  where
    by_case :
        (msg : ClientMessage) (clock : VectorClock)
        → Ticked p s clock
        → (s' : TodoState) × (apply p s msg ≡ some s') × MovesByOne s s'
    by_case (ClientMessage.add text) clock ticked =
        add_room p s text clock ticked (omega (arith, room.counts))
    by_case (ClientMessage.toggle id) clock ticked = toggle_room p s id clock ticked
    by_case (ClientMessage.delete id) clock ticked = delete_room p s id clock ticked
    by_case ClientMessage.resync clock ticked = (s, refl, MovesByOne-refl s)
