-- ===== src/TodoApp/State/Tidy.antt =====
-- An id without a text has left no trace in a state: it was not added, removed, toggled or credited.
use nettverksprogrammering_p.Base.{◌≡◌, ◌≢◌, none, some, false, arith, inl, inr}
use nettverksprogrammering_p.Std.HashMap
use nettverksprogrammering_p.Std.HashMap.{HashMap, get-insert, get-new, contains_key}
use nettverksprogrammering_p.Std.Text.{Text, text_key, trim}
use nettverksprogrammering_p.Std.Word.{dev}
use nettverksprogrammering_p.CrdtCore.Clock.{ReplicaId}
use nettverksprogrammering_p.CrdtCore.GSet
use nettverksprogrammering_p.CrdtCore.GSet.Laws.{insert_lem}
use nettverksprogrammering_p.TodoApp.Protocol.{ClientMessage}
use nettverksprogrammering_p.TodoApp.State.{TodoState, new, apply, merge}
use nettverksprogrammering_p.TodoApp.State.Apply.{next_id}
use nettverksprogrammering_p.TodoApp.State.Writes.{
  Stores, Toggles, Deletes, add_writes, toggle_writes, delete_writes,
}
use nettverksprogrammering_p.TodoApp.State.Merge.{
  get-added, get-removed, get-texts, get-creators, get-completed,
}

-- The state has no entry under the id.
pub record HasNoTrace (s : TodoState) (id : Text) : Type 0 where
  pub text : HashMap.get s.texts id ≡ none
  pub added : GSet.contains s.added id ≡ false
  pub removed : GSet.contains s.removed id ≡ false
  pub completed : HashMap.get s.completed id ≡ none
  pub creator : HashMap.get s.creators id ≡ none

abbrev pub IsTidy : TodoState → Type 0
IsTidy s = (id : Text) → HashMap.get s.texts id ≡ none → HasNoTrace s id

pub new-IsTidy : (peer_id : Text) (replica_id : ReplicaId) → IsTidy (new peer_id replica_id)
unfolding new GSet.new GSet.contains contains_key
new-IsTidy peer_id replica_id id e = record {
  text = e;
  added = ground (arith, get-new {V = Unit {0}} id);
  removed = ground (arith, get-new {V = Unit {0}} id);
  completed = get-new id;
  creator = get-new id;
}

pub merge-IsTidy : (a b : TodoState) → IsTidy a → IsTidy b → IsTidy (merge a b)
unfolding GSet.contains contains_key
merge-IsTidy a b ha hb id e =
    let ea : HashMap.get a.texts id ≡ none = ground (arith, get-texts a b id) in
    let eb : HashMap.get b.texts id ≡ none = ground (arith, get-texts a b id) in
    let ka = ha id ea in
    let kb = hb id eb in
    record {
      text = e;
      added = ground (arith, get-added a b id, ka.added, kb.added);
      removed = ground (arith, get-removed a b id, ka.removed, kb.removed);
      completed = ground (arith, get-completed a b id, ka.completed, kb.completed);
      creator = ground (arith, get-creators a b id, ka.creator, kb.creator);
    }

stored-IsTidy : (s s' : TodoState) (title : Text) → Stores s s' title → IsTidy s → IsTidy s'
unfolding GSet.contains contains_key
stored-IsTidy s s' title h tidy id e =
    let at_text = get-insert s.texts (next_id s) title id in
    let absent : HashMap.get s.texts id ≡ none = ground (arith, h.texts, at_text) in
    let other : next_id s ≢ id = λ same. ground (arith, h.texts, at_text) in
    let k = tidy id absent in
    record {
      text = e;
      added = ground (arith, h.added, (insert_lem s.added (next_id s)).1 id, other, k.added);
      removed = rw h.removed k.removed;
      completed =
          ground
            (arith, h.completed, get-insert s.completed (next_id s) false id, other, k.completed);
      creator =
          ground
            (arith, h.creators, get-insert s.creators (next_id s) s.peer_id id, other, k.creator);
    }

toggled-IsTidy : (s s' : TodoState) (id : Text) → Toggles s s' id → IsTidy s → IsTidy s'
toggled-IsTidy s s' id h tidy j e =
    let k = tidy j (rw h.texts at e) in
    let other : id ≢ j = λ same. ground (arith, same, h.known, k.added) in
    record {
      text = e;
      added = rw h.added k.added;
      removed = rw h.removed k.removed;
      completed =
          ground (arith, h.completed, get-insert s.completed id h.flag j, other, k.completed);
      creator = rw h.creators k.creator;
    }

deleted-IsTidy : (s s' : TodoState) (id : Text) → Deletes s s' id → IsTidy s → IsTidy s'
deleted-IsTidy s s' id h tidy j e =
    let k = tidy j (rw h.texts at e) in
    let other : id ≢ j = λ same. ground (arith, same, h.known, k.added) in
    record {
      text = e;
      added = rw h.added k.added;
      removed = ground (arith, h.removed, (insert_lem s.removed id).1 j, other, k.removed);
      completed = rw h.completed k.completed;
      creator = rw h.creators k.creator;
    }

pub apply-IsTidy :
    (s s' : TodoState) (msg : ClientMessage) → apply dev s msg ≡ some s' → IsTidy s → IsTidy s'
unfolding apply
apply-IsTidy s s' (ClientMessage.add text) e tidy = elim (add_writes s s' text e) [
  | inl same ↦ rw (← same) tidy
  | inr h ↦ stored-IsTidy s s' (trim text) h tidy
]
apply-IsTidy s s' (ClientMessage.toggle id) e tidy = elim (toggle_writes s s' id e) [
  | inl same ↦ rw (← same) tidy
  | inr h ↦ toggled-IsTidy s s' id h tidy
]
apply-IsTidy s s' (ClientMessage.delete id) e tidy = elim (delete_writes s s' id e) [
  | inl same ↦ rw (← same) tidy
  | inr h ↦ deleted-IsTidy s s' id h tidy
]
apply-IsTidy s s' ClientMessage.resync e tidy = let same : s ≡ s' = ground arith in rw (← same) tidy
