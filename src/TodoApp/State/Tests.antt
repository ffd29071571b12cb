-- ===== src/TodoApp/State/Tests.antt =====
-- The tests of crates/todo-app/src/state.rs. `none` is a panic, also of an index that is out of
-- range; `some false` is a failed assertion.
use nettverksprogrammering_p.Base.{
  ◌≡◌, refl, ite, Bool, true, false, not, ◌&&◌, Option, none, some, List, [], ◌∷◌, ◌>>=◌, ◌==◌,
  length, ℕ_discrete,
}
use nettverksprogrammering_p.Std.HashMap
use nettverksprogrammering_p.Std.HashMap.{nat_key}
use nettverksprogrammering_p.Std.HashMap.Entries.{put, lookup}
use nettverksprogrammering_p.Std.HashSet
use nettverksprogrammering_p.Std.Text.{Text, text_key, text_discrete, codes, trim, cmp}
use nettverksprogrammering_p.Std.Text.Decimal.{to_decimal, digits}
use nettverksprogrammering_p.Std.Word.{Profile, dev, release, add as add_word}
use nettverksprogrammering_p.CrdtCore.GSet
use nettverksprogrammering_p.CrdtCore.VectorClock
use nettverksprogrammering_p.TodoApp.Protocol.{ServerMessage, PeerSnapshot, TodoItem}
use nettverksprogrammering_p.TodoApp.State
use nettverksprogrammering_p.TodoApp.State.{TodoState, new, add, toggle, delete, merge}

abbrev peers_of : ServerMessage → List PeerSnapshot
peers_of (ServerMessage.snapshot local_peer_id peers) = peers

abbrev pub peers : TodoState → List PeerSnapshot
peers state = peers_of (State.snapshot state)

-- the index `[0]`
abbrev at_0 {ℓ} : {A : Type ℓ} → List A → Option A
at_0 [] = none
at_0 (x ∷ xs) = some x

-- `peers(&s)[0].todos`
abbrev todos_shown : TodoState → Option (List TodoItem)
todos_shown s = do peer ← at_0 (peers s); some peer.todos

abbrev same_text : Text → Text → Bool
same_text s t = ite (text_discrete s t) true false

unfoldable pub add_creates_todo : Profile → Option Bool
add_creates_todo p = do
  s ← add p (new (codes "peer-1") 1) (codes "Buy milk")
  todos ← todos_shown s
  item ← at_0 todos
  some (length todos == 1 && same_text item.text (codes "Buy milk") && not item.completed)

unfoldable pub empty_add_is_ignored : Profile → Option Bool
empty_add_is_ignored p = do
  s ← add p (new (codes "peer-1") 1) (codes "   ")
  todos ← todos_shown s
  some (length todos == 0)

unfoldable pub toggle_flips_completion : Profile → Option Bool
toggle_flips_completion p = do
  s ← add p (new (codes "peer-1") 1) (codes "Walk dog")
  todos ← todos_shown s
  item ← at_0 todos
  s' ← toggle p s item.id
  todos' ← todos_shown s'
  item' ← at_0 todos'
  s'' ← toggle p s' item.id
  todos'' ← todos_shown s''
  item'' ← at_0 todos''
  some (item'.completed && not item''.completed)

unfoldable pub delete_removes_todo_from_snapshot : Profile → Option Bool
delete_removes_todo_from_snapshot p = do
  s ← add p (new (codes "peer-1") 1) (codes "Temporary")
  todos ← todos_shown s
  item ← at_0 todos
  s' ← delete p s item.id
  todos' ← todos_shown s'
  some (length todos' == 0)

unfoldable pub merge_combines_additions_from_two_replicas : Profile → Option Bool
merge_combines_additions_from_two_replicas p = do
  a ← add p (new (codes "peer-a") 1) (codes "From A")
  b ← add p (new (codes "peer-b") 2) (codes "From B")
  let a' = merge a b
  let b' = merge b a'
  todos_a ← todos_shown a'
  todos_b ← todos_shown b'
  some (length todos_a == 2 && length todos_b == 2)

unfoldable pub merge_propagates_deletion : Profile → Option Bool
merge_propagates_deletion p = do
  a ← add p (new (codes "peer-a") 1) (codes "Doomed")
  todos ← todos_shown a
  item ← at_0 todos
  let b = merge (new (codes "peer-b") 2) a
  todos_b ← todos_shown b
  a' ← delete p a item.id
  todos_b' ← todos_shown (merge b a')
  some (length todos_b == 1 && length todos_b' == 0)

-- The unit tests pass in either profile.
unit_tests_pass :
    (p : Profile)
    → (add_creates_todo p ≡ some true)
      × (empty_add_is_ignored p ≡ some true)
      × (toggle_flips_completion p ≡ some true)
      × (delete_removes_todo_from_snapshot p ≡ some true)
      × (merge_combines_additions_from_two_replicas p ≡ some true)
      × (merge_propagates_deletion p ≡ some true)
unfolding add_creates_todo empty_add_is_ignored toggle_flips_completion
    delete_removes_todo_from_snapshot merge_combines_additions_from_two_replicas
    merge_propagates_deletion new add toggle delete merge State.tick State.new_todo_id
    State.store_todo State.format_id State.snapshot State.todos State.sort_items State.insert_item
    State.collect_items State.todo_item GSet.new GSet.insert GSet.contains GSet.merge GSet.iter
    HashSet.insert HashSet.extend VectorClock.new VectorClock.increment VectorClock.get
    VectorClock.merge HashMap.new HashMap.get HashMap.insert HashMap.contains_key HashMap.keys put
    lookup trim cmp to_decimal digits add_word text_discrete ℕ_discrete
unit_tests_pass dev = (refl, refl, refl, refl, refl, refl)
unit_tests_pass release = (refl, refl, refl, refl, refl, refl)
