-- ===== src/TodoApp/State/Shown.antt =====
-- The todos that a snapshot shows: which, in what order, and what becomes of deleted ones.
use nettverksprogrammering_p.Base.{
  ◌≡◌, sym, ◌∙◌, ◌≢◌, ◌↔◌, true, false, some, arith, unwrap_or, is_some, In,
}
use nettverksprogrammering_p.Std.HashMap
use nettverksprogrammering_p.Std.HashMap.{contains_key}
use nettverksprogrammering_p.Std.HashMap.Keys.{In-keys, keys-AreDistinct}
use nettverksprogrammering_p.Std.Text.{Text, text_key}
use nettverksprogrammering_p.Std.Word.{Profile}
use nettverksprogrammering_p.CrdtCore.GSet
use nettverksprogrammering_p.TodoApp.Protocol.{TodoItem, ClientMessage}
use nettverksprogrammering_p.TodoApp.State.{
  TodoState, todo_item, collect_items, todos, apply, merge,
}
use nettverksprogrammering_p.TodoApp.State.Apply.{is_visible}
use nettverksprogrammering_p.TodoApp.State.Effects.{apply-removed, delete-removed}
use nettverksprogrammering_p.TodoApp.State.Merge.{Same, get-removed}
use nettverksprogrammering_p.TodoApp.State.Snapshot.{collected, collect, collected-HaveDistinctIds}
use nettverksprogrammering_p.TodoApp.State.Sorting.{
  IsSorted, In-sort_items, sort_items-IsSorted, sorted_unique,
}

-- The todos are shown in strict order of their ids, so none is shown twice.
pub todos-IsSorted : (s : TodoState) → IsSorted (todos s)
unfolding todos GSet.iter
todos-IsSorted s =
    sort_items-IsSorted (collect_items s (GSet.iter s.added))
      (collected-HaveDistinctIds s (GSet.iter s.added) (keys-AreDistinct s.added.elements))

pub In-todos :
    (s : TodoState) (item : TodoItem)
    → In item (todos s)
      ↔ ((GSet.contains s.added item.id ≡ true) × (todo_item s item.id ≡ some item))
unfolding todos GSet.iter GSet.contains
In-todos s item = (
  λ m.
      let (k, is_item) =
        collected s (GSet.iter s.added) item
          ((In-sort_items item (collect_items s (GSet.iter s.added))).0 m) in
      ((In-keys s.added.elements item.id).0 k, is_item),
  λ h.
      (In-sort_items item (collect_items s (GSet.iter s.added))).1
        (collect s (GSet.iter s.added) item.id item ((In-keys s.added.elements item.id).1 h.0) h.1),
)

todo_item_iff :
    (s : TodoState) (item : TodoItem)
    → (todo_item s item.id ≡ some item) ↔ (
        (GSet.contains s.removed item.id ≡ false)
        × (HashMap.get s.texts item.id ≡ some item.text)
        × (unwrap_or (HashMap.get s.completed item.id) false ≡ item.completed)
        × (unwrap_or (HashMap.get s.creators item.id) s.peer_id ≡ item.created_by))
unfolding todo_item
todo_item_iff s item = (λ h. ground arith, λ h. ground arith)

-- A snapshot shows an item exactly where its id was added and not removed, its text is the one
-- under the id, its flag the one under the id (`false` where there is none), and its creator the
-- one under the id (this peer where there is none).
pub todos_iff :
    (s : TodoState) (item : TodoItem)
    → In item (todos s) ↔ (
        (is_visible s item.id ≡ true)
        × (HashMap.get s.texts item.id ≡ some item.text)
        × (unwrap_or (HashMap.get s.completed item.id) false ≡ item.completed)
        × (unwrap_or (HashMap.get s.creators item.id) s.peer_id ≡ item.created_by))
unfolding is_visible
todos_iff s item = (
  λ m.
      let (known, is_item) = (In-todos s item).0 m in
      let fields = (todo_item_iff s item).0 is_item in
      (ground (arith, fields.0), fields.1, fields.2, fields.3),
  λ h. (In-todos s item).1 (ground arith, (todo_item_iff s item).1 (ground arith, h.1, h.2, h.3)),
)

-- Every todo with a text has a creator.
abbrev pub HasCreators : TodoState → Type 0
HasCreators s =
    (id : Text)
    → is_some (HashMap.get s.texts id) ≡ true
    → is_some (HashMap.get s.creators id) ≡ true

todo_item_congr :
    (a b : TodoState) (id : Text) → Same a b → HasCreators a → todo_item a id ≡ todo_item b id
unfolding todo_item GSet.contains contains_key
todo_item_congr a b id h credited =
    ground (arith, h.1.0 id, h.1.1.0 id, h.1.1.1.0 id, h.1.1.1.1.0 id, credited id)

contains-congr :
    (a b : TodoState) (id : Text) → Same a b → GSet.contains a.added id ≡ GSet.contains b.added id
unfolding GSet.contains contains_key
contains-congr a b id h = ground (arith, h.0 id)

-- Replicas whose replicated fields hold the same entries show the same list of todos, whoever they
-- are and in whatever order their maps iterate, if every text has a creator.
pub todos_congr : (a b : TodoState) → Same a b → HasCreators a → todos a ≡ todos b
todos_congr a b h credited =
    sorted_unique (todos a) (todos b) (todos-IsSorted a) (todos-IsSorted b)
      (λ x m.
        let (known, is_item) = (In-todos a x).0 m in
        (In-todos b x).1 (
          sym (contains-congr a b x.id h) ∙ known,
          sym (todo_item_congr a b x.id h credited) ∙ is_item,
        ))
      (λ x m.
        let (known, is_item) = (In-todos b x).0 m in
        (In-todos a x).1
          (contains-congr a b x.id h ∙ known, todo_item_congr a b x.id h credited ∙ is_item))

-- The states that a replica can come to from `s`, by operations and merges in any order.
pub data History (p : Profile) (s : TodoState) : TodoState → Type 0 where
  here : History p s s
  applied :
      {t u : TodoState} (msg : ClientMessage)
      → History p s t
      → apply p t msg ≡ some u
      → History p s u
  merged : {t : TodoState} (x : TodoState) → History p s t → History p s (merge t x)

removed_stays :
    (p : Profile) (s : TodoState) (id : Text) {t : TodoState}
    → History p s t
    → GSet.contains s.removed id ≡ true
    → GSet.contains t.removed id ≡ true
unfolding GSet.contains contains_key
removed_stays p s id here h = h
removed_stays p s id (applied {t} {u} msg past e) h =
    apply-removed p t u msg id e (removed_stays p s id past h)
removed_stays p s id (merged {t} x past) h =
    ground (arith, get-removed t x id, removed_stays p s id past h)

-- In either profile: after a replica that knows a todo has deleted it, no list that it shows has an
-- item with the id of the todo, whatever operations and merges of any states follow.
pub deleted_stays_deleted :
    (p : Profile) (s s' t : TodoState) (id : Text) (item : TodoItem)
    → GSet.contains s.added id ≡ true
    → apply p s (ClientMessage.delete id) ≡ some s'
    → History p s' t
    → In item (todos t)
    → item.id ≢ id
unfolding is_visible
deleted_stays_deleted p s s' t id item known deleted past m same =
    let removed = delete-removed p s s' id known deleted in
    let gone : GSet.contains t.removed item.id ≡ true =
      rw same (removed_stays p s' id past removed) in
    ground (arith, ((todos_iff t item).0 m).0)
