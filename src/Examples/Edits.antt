-- ===== src/Examples/Edits.antt =====
-- What a browser of peer 0 adds, completes and deletes.
use nettverksprogrammering_p.Base.{
  ℕ, ◌≡◌, ◌≢◌, refl, In, first, true, false, some, unwrap_or, arith, ℕ_discrete,
}
use nettverksprogrammering_p.Std.HashMap
use nettverksprogrammering_p.Std.HashMap.{nat_key}
use nettverksprogrammering_p.Std.HashMap.Entries.{put, lookup}
use nettverksprogrammering_p.Std.HashSet
use nettverksprogrammering_p.Std.Text.{codes, text_key, text_discrete, trim, is_empty}
use nettverksprogrammering_p.Std.Text.Decimal.{to_decimal, to_decimal-injective}
use nettverksprogrammering_p.Std.Word.{dev, add as add_word}
use nettverksprogrammering_p.CrdtCore.GSet
use nettverksprogrammering_p.CrdtCore.VectorClock
use nettverksprogrammering_p.TodoApp.Protocol.{TodoItem, ClientMessage}
use nettverksprogrammering_p.TodoApp.State
use nettverksprogrammering_p.TodoApp.State.{TodoState, todos}
use nettverksprogrammering_p.TodoApp.State.Apply.{is_visible}
use nettverksprogrammering_p.TodoApp.State.Lasting.{new_item}
use nettverksprogrammering_p.TodoApp.Cluster.{Net, Works, Reach, start, later, request}
use nettverksprogrammering_p.TodoApp.Cluster.Converges.{ShowsItsState}
use nettverksprogrammering_p.TodoApp.Cluster.Requests.{asked}
use nettverksprogrammering_p.TodoApp.Cluster.Rounds.{IsAlive}
use nettverksprogrammering_p.TodoApp.Cluster.Edits.{
  ShowsItem, added_todo_is_shown, deleted_todo_vanishes, completed_todo_is_completed,
}
use nettverksprogrammering_p.Examples.Codecs.{json, todo_codec, todo_codec-IsFaithful}
use nettverksprogrammering_p.Examples.Systems.{own_number, added}
use nettverksprogrammering_p.Examples.Networks.{adds_tea}
use nettverksprogrammering_p.Examples.Clusters.{each_other, codec-IsTotal, begun, with_todo}

abbrev fresh : TodoState
fresh = State.new (to_decimal 0) 0

abbrev tea : TodoItem
tea = new_item fresh (trim (codes "tea"))

begun-IsAlive : (k : ℕ) → IsAlive (begun.process k)
begun-IsAlive k = record { follows = λ e. cc; fits = omega arith }

not_blank : is_empty (trim (codes "tea")) ≡ false
unfolding is_empty trim
not_blank = refl

added_todo_is_shown_example :
    (cl : Net json todo_codec) × Works json todo_codec to_decimal each_other
      (asked json todo_codec begun 0 added)
      cl
    × ShowsItem json (cl.process 0) tea
    × ShowsItem json (cl.process 1) tea
    × (todos (cl.process 0).app.inner ≡ todos (cl.process 1).app.inner)
added_todo_is_shown_example =
    added_todo_is_shown json todo_codec codec-IsTotal todo_codec-IsFaithful to_decimal each_other
      to_decimal-injective own_number begun 0 1 start (λ e. absurd (omega arith)) first first
      (begun-IsAlive 0) (begun-IsAlive 1) (codes "tea") added not_blank adds_tea

reach_with_todo : Reach json todo_codec to_decimal each_other own_number with_todo
reach_with_todo = later start (request 0 (ClientMessage.add (codes "tea")) adds_tea)

zero-IsAlive : IsAlive (with_todo.process 0)
unfolding ℕ_discrete
zero-IsAlive = record { follows = λ e. cc; fits = omega arith }

one-IsAlive : IsAlive (with_todo.process 1)
unfolding ℕ_discrete
one-IsAlive = record { follows = λ e. cc; fits = omega arith }

abbrev ticked : TodoState
ticked = record added { clock = record { entries = HashMap.insert added.clock.entries 0 2 } }

abbrev deleted : TodoState
deleted = record ticked { removed = (GSet.insert added.removed (codes "0-1")).0 }

abbrev completed : TodoState
completed = record ticked { completed = HashMap.insert added.completed (codes "0-1") true }

known : GSet.contains (with_todo.process 0).app.inner.added (codes "0-1") ≡ true
unfolding ℕ_discrete GSet.contains GSet.insert HashSet.insert HashMap.contains_key HashMap.get
    HashMap.insert HashMap.new GSet.new State.new State.store_todo lookup put text_discrete
known = refl

deletes :
    State.apply dev (with_todo.process 0).app.inner (ClientMessage.delete (codes "0-1"))
    ≡ some deleted
unfolding ℕ_discrete State.apply State.delete State.tick VectorClock.increment add_word
    GSet.contains GSet.insert HashSet.insert HashMap.contains_key HashMap.get HashMap.insert
    HashMap.new GSet.new State.new State.store_todo lookup put text_discrete
deletes = refl

deleted_todo_vanishes_example :
    (cl : Net json todo_codec) × Works json todo_codec to_decimal each_other
      (asked json todo_codec with_todo 0 deleted)
      cl
    × ShowsItsState json to_decimal own_number (cl.process 0) 0
    × ShowsItsState json to_decimal own_number (cl.process 1) 1
    × (todos (cl.process 0).app.inner ≡ todos (cl.process 1).app.inner)
    × ((item : TodoItem) → In item (todos (cl.process 0).app.inner) → item.id ≢ codes "0-1")
deleted_todo_vanishes_example =
    deleted_todo_vanishes json todo_codec codec-IsTotal todo_codec-IsFaithful to_decimal each_other
      to_decimal-injective own_number with_todo 0 1 reach_with_todo (λ e. absurd (omega arith))
      first first zero-IsAlive one-IsAlive (codes "0-1") deleted known deletes

visible : is_visible (with_todo.process 0).app.inner (codes "0-1") ≡ true
unfolding ℕ_discrete is_visible GSet.contains GSet.insert HashSet.insert HashMap.contains_key
    HashMap.get HashMap.insert HashMap.new GSet.new State.new State.store_todo lookup put
    text_discrete
visible = refl

still_open :
    unwrap_or (HashMap.get (with_todo.process 0).app.inner.completed (codes "0-1")) false ≡ false
unfolding ℕ_discrete HashMap.get HashMap.insert HashMap.new State.new State.store_todo lookup put
    text_discrete
still_open = refl

completes :
    State.apply dev (with_todo.process 0).app.inner (ClientMessage.toggle (codes "0-1"))
    ≡ some completed
unfolding ℕ_discrete State.apply State.toggle State.tick VectorClock.increment add_word
    GSet.contains GSet.insert HashSet.insert HashMap.contains_key HashMap.get HashMap.insert
    HashMap.new GSet.new State.new State.store_todo lookup put text_discrete
completes = refl

completed_todo_is_completed_example :
    (cl : Net json todo_codec) × Works json todo_codec to_decimal each_other
      (asked json todo_codec with_todo 0 completed)
      cl
    × ShowsItsState json to_decimal own_number (cl.process 0) 0
    × ShowsItsState json to_decimal own_number (cl.process 1) 1
    × (todos (cl.process 0).app.inner ≡ todos (cl.process 1).app.inner)
    × ((item : TodoItem)
        → In item (todos (cl.process 0).app.inner)
        → item.id ≡ codes "0-1"
        → item.completed ≡ true)
completed_todo_is_completed_example =
    completed_todo_is_completed json todo_codec codec-IsTotal todo_codec-IsFaithful to_decimal
      each_other to_decimal-injective own_number with_todo 0 1 reach_with_todo
      (λ e. absurd (omega arith)) first first zero-IsAlive one-IsAlive (codes "0-1") completed
      visible still_open completes
