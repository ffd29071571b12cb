-- ===== src/Examples/Shown.antt =====
-- What replicas show after merges, deletions and restarts.
use nettverksprogrammering_p.Base.{
  ◌≡◌, ◌≢◌, refl, ◌↔◌, true, false, some, arith, unwrap_or, In, first, ℕ_discrete,
}
use nettverksprogrammering_p.Std.HashMap
use nettverksprogrammering_p.Std.HashMap.{HashMap, nat_key, get-insert, get-new}
use nettverksprogrammering_p.Std.HashMap.Entries.{put, lookup}
use nettverksprogrammering_p.Std.Text.{Text, text_key, text_discrete, trim, codes}
use nettverksprogrammering_p.Std.Text.Decimal.{to_decimal, digits}
use nettverksprogrammering_p.Std.Word.{dev, add as add_word}
use nettverksprogrammering_p.Std.HashSet
use nettverksprogrammering_p.CrdtCore.GSet
use nettverksprogrammering_p.CrdtCore.VectorClock
use nettverksprogrammering_p.CrdtCore.VectorClock.Merge.{new-HasNoZeros}
use nettverksprogrammering_p.TodoApp.Protocol.{ClientMessage}
use nettverksprogrammering_p.TodoApp.State
use nettverksprogrammering_p.TodoApp.State.{TodoState}
use nettverksprogrammering_p.TodoApp.State.Apply.{is_visible}
use nettverksprogrammering_p.TodoApp.State.Restart.{Shows, restart_diverges}
use nettverksprogrammering_p.TodoApp.State.Toggles.{untoggle_undone}
use nettverksprogrammering_p.TodoApp.State.Shown.{todos_iff, here, merged, deleted_stays_deleted}
use nettverksprogrammering_p.TodoApp.State.Merge.{Same, Agrees, todo_merge_laws}
use nettverksprogrammering_p.Examples.Todos.{
  peer, fresh, one, one_removed, two, milk, clock-one, one-HasRoom,
}

tea_visible : is_visible one (codes "a-1") ≡ true
unfolding is_visible State.store_todo State.new GSet.insert GSet.contains GSet.new HashSet.insert
    HashMap.contains_key HashMap.get HashMap.new HashMap.insert lookup put text_discrete ℕ_discrete
tea_visible = refl

restart_diverges_example :
    (s' : TodoState) × (State.add dev (State.merge (State.new peer 1) one) (codes "milk") ≡ some s')
    × Shows s' (codes "a-1") (codes "milk")
    × Shows one (codes "a-1") (codes "tea")
    × Shows (State.merge s' one) (codes "a-1") (codes "milk")
    × Shows (State.merge one s') (codes "a-1") (codes "tea")
    × (State.todos (State.merge s' one) ≢ State.todos (State.merge one s'))
unfolding trim State.merge State.store_todo State.new State.format_id VectorClock.merge
    VectorClock.new VectorClock.get HashMap.get HashMap.new HashMap.insert lookup put text_discrete
    ℕ_discrete to_decimal digits
restart_diverges_example =
    restart_diverges dev peer 1 one (codes "milk")
      (record { ticks = omega arith; counts = omega arith }) refl (codes "tea") refl tea_visible
      (λ e. cc)

-- "tea" is completed, which both replicas know
abbrev one_done : TodoState
one_done = record one { completed = HashMap.insert one.completed (codes "a-1") true }

untoggle_undone_example :
    (s' : TodoState) × (State.toggle dev one_done (codes "a-1") ≡ some s')
    × (HashMap.get s'.completed (codes "a-1") ≡ some false)
    × (HashMap.get (State.merge s' one_done).completed (codes "a-1") ≡ some true)
    × (HashMap.get (State.merge one_done s').completed (codes "a-1") ≡ some true)
unfolding is_visible State.store_todo State.new GSet.insert GSet.contains GSet.new HashSet.insert
    HashMap.contains_key HashMap.get HashMap.new HashMap.insert lookup put text_discrete ℕ_discrete
untoggle_undone_example =
    untoggle_undone dev one_done one_done (codes "a-1")
      (record { ticks = one-HasRoom.ticks; counts = one-HasRoom.counts }) refl refl refl

todos_iff_example : In milk (State.todos two) ↔ (
    (is_visible two milk.id ≡ true)
    × (HashMap.get two.texts milk.id ≡ some milk.text)
    × (unwrap_or (HashMap.get two.completed milk.id) false ≡ milk.completed)
    × (unwrap_or (HashMap.get two.creators milk.id) two.peer_id ≡ milk.created_by))
todos_iff_example = todos_iff two milk

-- `a` deletes "tea", and then merges the state of a peer that knows both todos
abbrev tea_deleted : TodoState
tea_deleted = record one_removed {
  clock = record { entries = HashMap.insert one.clock.entries 1 2 };
}

delete-tea : State.apply dev one (ClientMessage.delete (codes "a-1")) ≡ some tea_deleted
unfolding State.apply State.delete State.tick State.new State.store_todo VectorClock.increment
    VectorClock.new HashMap.new HashMap.get HashMap.insert HashMap.contains_key lookup put add_word
    GSet.contains GSet.insert HashSet.insert GSet.new text_discrete ℕ_discrete
delete-tea = refl

shown-merged : In milk (State.todos (State.merge tea_deleted two))
unfolding State.merge State.todos State.sort_items State.insert_item State.collect_items
    State.todo_item State.store_todo State.new GSet.merge GSet.iter HashMap.keys GSet.insert
    HashSet.insert GSet.contains HashMap.contains_key HashMap.get HashMap.new HashMap.insert
    HashSet.extend lookup put text_discrete ℕ_discrete GSet.new
shown-merged = first

deleted_stays_deleted_example : codes "a-2" ≢ codes "a-1"
unfolding State.store_todo State.new GSet.new GSet.insert HashSet.insert GSet.contains
    HashMap.contains_key HashMap.get HashMap.new HashMap.insert lookup put text_discrete ℕ_discrete
deleted_stays_deleted_example =
    deleted_stays_deleted dev one tea_deleted (State.merge tea_deleted two) (codes "a-1") milk refl
      delete-tea (merged two here) shown-merged

one-Agrees : Agrees (λ _. codes "tea") (λ _. peer) one
unfolding State.store_todo State.new
one-Agrees = record {
  text = λ id t e. ground (
    arith,
    get-insert (HashMap.new {V = Text}) (codes "a-1") (codes "tea") id,
    get-new {V = Text} id,
  );
  creator = λ id t e.
      ground
        (arith, get-insert (HashMap.new {V = Text}) (codes "a-1") peer id, get-new {V = Text} id);
  counted = clock-one;
}

fresh-Agrees : Agrees (λ _. codes "tea") (λ _. peer) fresh
unfolding State.new
fresh-Agrees = record {
  text = λ id t e. ground (arith, get-new {V = Text} id);
  creator = λ id t e. ground (arith, get-new {V = Text} id);
  counted = new-HasNoZeros;
}

todo_merge_laws_example :
    Same (State.merge fresh one) (State.merge one fresh)
    × Same (State.merge (State.merge fresh one) two) (State.merge fresh (State.merge one two))
    × Same (State.merge fresh fresh) fresh
todo_merge_laws_example =
    todo_merge_laws (λ _. codes "tea") (λ _. peer) fresh one two fresh-Agrees one-Agrees
