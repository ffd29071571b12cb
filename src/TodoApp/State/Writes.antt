-- ===== src/TodoApp/State/Writes.antt =====
-- What an operation that returned has written.
use mathlib.Core.Bool.{not}
use nettverksprogrammering_p.Base.{
  ◌≡◌, refl, ◌⊎◌, inl, inr, Bool, true, false, some, unwrap_or, arith, Bool-cases,
}
use nettverksprogrammering_p.Std.HashMap
use nettverksprogrammering_p.Std.HashMap.{HashMap}
use nettverksprogrammering_p.Std.Text.{Text, text_key, trim, is_empty}
use nettverksprogrammering_p.Std.Word
use nettverksprogrammering_p.Std.Word.{dev}
use nettverksprogrammering_p.CrdtCore.GSet
use nettverksprogrammering_p.TodoApp.State.{
  TodoState, new_todo_id, store_todo, tick, add, toggle, delete,
}
use nettverksprogrammering_p.TodoApp.State.Apply.{next_id}

pub record Stores (s s' : TodoState) (title : Text) : Type 0 where
  pub texts : s'.texts ≡ HashMap.insert s.texts (next_id s) title
  pub creators : s'.creators ≡ HashMap.insert s.creators (next_id s) s.peer_id
  pub completed : s'.completed ≡ HashMap.insert s.completed (next_id s) false
  pub added : s'.added ≡ (GSet.insert s.added (next_id s)).0
  pub removed : s'.removed ≡ s.removed

pub record Toggles (s s' : TodoState) (id : Text) : Type 0 where
  pub flag : Bool
  pub flips : flag ≡ not (unwrap_or (HashMap.get s.completed id) false)
  pub known : GSet.contains s.added id ≡ true
  pub texts : s'.texts ≡ s.texts
  pub creators : s'.creators ≡ s.creators
  pub completed : s'.completed ≡ HashMap.insert s.completed id flag
  pub added : s'.added ≡ s.added
  pub removed : s'.removed ≡ s.removed

pub record Deletes (s s' : TodoState) (id : Text) : Type 0 where
  pub known : GSet.contains s.added id ≡ true
  pub texts : s'.texts ≡ s.texts
  pub creators : s'.creators ≡ s.creators
  pub completed : s'.completed ≡ s.completed
  pub added : s'.added ≡ s.added
  pub removed : s'.removed ≡ (GSet.insert s.removed id).0

pub add_filled :
    (s s' : TodoState) (text : Text)
    → is_empty (trim text) ≡ false
    → add dev s text ≡ some s'
    → Stores s s' (trim text)
unfolding add new_todo_id store_todo tick Word.add
add_filled s s' text filled h = record {
  texts = ground arith;
  creators = ground arith;
  completed = ground arith;
  added = ground arith;
  removed = ground arith;
}

pub add_writes :
    (s s' : TodoState) (text : Text) → add dev s text ≡ some s' → (s ≡ s') ⊎ Stores s s' (trim text)
unfolding add
add_writes s s' text h = elim (Bool-cases (is_empty (trim text))) [
  | inl blank ↦ inl (ground arith)
  | inr filled ↦ inr (add_filled s s' text filled h)
]

pub toggle_visible :
    (s s' : TodoState) (id : Text)
    → GSet.contains s.added id ≡ true
    → GSet.contains s.removed id ≡ false
    → toggle dev s id ≡ some s'
    → Toggles s s' id
unfolding toggle tick
toggle_visible s s' id known kept h = record {
  flag = not (unwrap_or (HashMap.get s.completed id) false);
  flips = refl;
  known = known;
  texts = ground arith;
  creators = ground arith;
  completed = ground arith;
  added = ground arith;
  removed = ground arith;
}

pub toggle_writes :
    (s s' : TodoState) (id : Text) → toggle dev s id ≡ some s' → (s ≡ s') ⊎ Toggles s s' id
unfolding toggle
toggle_writes s s' id h = elim (Bool-cases (GSet.contains s.added id)) [
  | inr unknown ↦ inl (ground arith)
  | inl known ↦ elim (Bool-cases (GSet.contains s.removed id)) [
    | inl gone ↦ inl (ground arith)
    | inr kept ↦ inr (toggle_visible s s' id known kept h)
  ]
]

pub delete_known :
    (s s' : TodoState) (id : Text)
    → GSet.contains s.added id ≡ true
    → delete dev s id ≡ some s'
    → Deletes s s' id
unfolding delete tick
delete_known s s' id known h = record {
  known = known;
  texts = ground arith;
  creators = ground arith;
  completed = ground arith;
  added = ground arith;
  removed = ground arith;
}

pub delete_writes :
    (s s' : TodoState) (id : Text) → delete dev s id ≡ some s' → (s ≡ s') ⊎ Deletes s s' id
unfolding delete
delete_writes s s' id h = elim (Bool-cases (GSet.contains s.added id)) [
  | inr unknown ↦ inl (ground arith)
  | inl known ↦ inr (delete_known s s' id known h)
]
