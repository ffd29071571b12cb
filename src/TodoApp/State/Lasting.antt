-- ===== src/TodoApp/State/Lasting.antt =====
-- What an operation leaves in the state of a replica, whatever the replica merges afterwards.
use nettverksprogrammering_p.Base.{◌≡◌, ◌≢◌, true, false, some, unwrap_or, arith, In}
use nettverksprogrammering_p.Std.HashMap
use nettverksprogrammering_p.Std.HashMap.{get-insert, contains_key}
use nettverksprogrammering_p.Std.Text.{Text, text_key}
use nettverksprogrammering_p.CrdtCore.GSet
use nettverksprogrammering_p.CrdtCore.GSet.Laws.{insert_lem}
use nettverksprogrammering_p.TodoApp.Protocol.{TodoItem}
use nettverksprogrammering_p.TodoApp.State.{TodoState, merge, todos}
use nettverksprogrammering_p.TodoApp.State.Apply.{is_visible, next_id}
use nettverksprogrammering_p.TodoApp.State.Merge.{
  get-added, get-removed, get-texts, get-creators, get-completed,
}
use nettverksprogrammering_p.TodoApp.State.Shown.{todos_iff}
use nettverksprogrammering_p.TodoApp.State.Tidy.{HasNoTrace}
use nettverksprogrammering_p.TodoApp.State.Writes.{Stores, Toggles, Deletes}

module _ (item : TodoItem) where
  -- The state has not removed or completed the item, and knows no other text or creator for it.
  pub record Allows (s : TodoState) : Type 0 where
    pub kept : GSet.contains s.removed item.id ≡ false
    pub open_flag : unwrap_or (HashMap.get s.completed item.id) false ≡ false
    pub text : (t : Text) → HashMap.get s.texts item.id ≡ some t → t ≡ item.text
    pub creator : (t : Text) → HashMap.get s.creators item.id ≡ some t → t ≡ item.created_by

  pub record Lists (s : TodoState) : Type 0 where
    pub kept : GSet.contains s.removed item.id ≡ false
    pub open_flag : unwrap_or (HashMap.get s.completed item.id) false ≡ false
    pub known : GSet.contains s.added item.id ≡ true
    pub text : HashMap.get s.texts item.id ≡ some item.text
    pub creator : HashMap.get s.creators item.id ≡ some item.created_by

  pub no_trace-Allows : (s : TodoState) → HasNoTrace s item.id → Allows s
  no_trace-Allows s h = record {
    kept = h.removed;
    open_flag = rw h.completed;
    text = λ t e. cc (h.text);
    creator = λ t e. cc (h.creator);
  }

  pub Lists-Allows : (s : TodoState) → Lists s → Allows s
  Lists-Allows s h = record {
    kept = h.kept;
    open_flag = h.open_flag;
    text = λ t e. ground (arith, h.text);
    creator = λ t e. ground (arith, h.creator);
  }

  pub merge-Allows : (a x : TodoState) → Allows a → Allows x → Allows (merge a x)
  unfolding GSet.contains contains_key
  merge-Allows a x h k = record {
    kept = ground (arith, get-removed a x item.id, h.kept, k.kept);
    open_flag = ground (arith, get-completed a x item.id, h.open_flag, k.open_flag);
    text = λ t e. ground (arith, get-texts a x item.id, h.text t, k.text t);
    creator = λ t e. ground (arith, get-creators a x item.id, h.creator t, k.creator t);
  }

  pub merge-Lists : (a x : TodoState) → Lists a → Allows x → Lists (merge a x)
  unfolding GSet.contains contains_key
  merge-Lists a x h k = record {
    kept = ground (arith, get-removed a x item.id, h.kept, k.kept);
    open_flag = ground (arith, get-completed a x item.id, h.open_flag, k.open_flag);
    known = ground (arith, get-added a x item.id, h.known);
    text = ground (arith, get-texts a x item.id, h.text);
    creator = ground (arith, get-creators a x item.id, h.creator);
  }

  pub Lists-todos : (s : TodoState) → item.completed ≡ false → Lists s → In item (todos s)
  unfolding is_visible
  Lists-todos s open_item h = (todos_iff s item).1 (
    ground (arith, h.known, h.kept),
    h.text,
    ground (arith, h.open_flag),
    ground (arith, h.creator),
  )

-- the item that an addition makes
abbrev pub new_item : TodoState → Text → TodoItem
new_item s title = record {
  id = next_id s;
  text = title;
  completed = false;
  created_by = s.peer_id;
}

pub Stores-Lists :
    (s s' : TodoState) (title : Text)
    → Stores s s' title
    → HasNoTrace s (next_id s)
    → Lists (new_item s title) s'
Stores-Lists s s' title h none_yet =
    let id = next_id s in
    record {
      kept = rw h.removed none_yet.removed;
      open_flag = ground (arith, h.completed, get-insert s.completed id false id);
      known = ground (arith, h.added, (insert_lem s.added id).1 id);
      text = ground (arith, h.texts, get-insert s.texts id title id);
      creator = ground (arith, h.creators, get-insert s.creators id s.peer_id id);
    }

-- The id was removed.
abbrev pub HasRemoved : Text → TodoState → Type 0
HasRemoved id s = GSet.contains s.removed id ≡ true

pub Deletes-HasRemoved : (s s' : TodoState) (id : Text) → Deletes s s' id → HasRemoved id s'
Deletes-HasRemoved s s' id h = ground (arith, h.removed, (insert_lem s.removed id).1 id)

pub merge-HasRemoved : (a x : TodoState) (id : Text) → HasRemoved id a → HasRemoved id (merge a x)
unfolding GSet.contains contains_key
merge-HasRemoved a x id h = ground (arith, get-removed a x id, h)

pub HasRemoved-todos :
    (s : TodoState) (id : Text) (item : TodoItem)
    → HasRemoved id s
    → In item (todos s)
    → item.id ≢ id
unfolding is_visible
HasRemoved-todos s id item h m same =
    let gone : GSet.contains s.removed item.id ≡ true = rw same h in
    ground (arith, ((todos_iff s item).0 m).0)

-- The id is completed.
abbrev pub HasCompleted : Text → TodoState → Type 0
HasCompleted id s = HashMap.get s.completed id ≡ some true

pub Toggles-HasCompleted :
    (s s' : TodoState) (id : Text)
    → Toggles s s' id
    → unwrap_or (HashMap.get s.completed id) false ≡ false
    → HasCompleted id s'
Toggles-HasCompleted s s' id h was =
    ground (arith, h.completed, h.flips, get-insert s.completed id h.flag id)

pub merge-HasCompleted :
    (a x : TodoState) (id : Text) → HasCompleted id a → HasCompleted id (merge a x)
merge-HasCompleted a x id h = ground (arith, get-completed a x id, h)

pub HasCompleted-todos :
    (s : TodoState) (id : Text) (item : TodoItem)
    → HasCompleted id s
    → In item (todos s)
    → item.id ≡ id
    → item.completed ≡ true
HasCompleted-todos s id item h m same = ground (arith, same, h, ((todos_iff s item).0 m).2)
