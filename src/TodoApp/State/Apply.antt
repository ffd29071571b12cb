-- ===== src/TodoApp/State/Apply.antt =====
-- The operations of a browser: what each of them writes, and when it writes nothing.
use mathlib.Core.Bool.{not}
use nettverksprogrammering_p.Base.{
  ◌+◌, ◌<◌, ◌≡◌, refl, Bool, true, false, ◌&&◌, some, arith, ite, unwrap_or,
}
use nettverksprogrammering_p.Std.HashMap
use nettverksprogrammering_p.Std.HashMap.{HashMap, get-insert, nat_key}
use nettverksprogrammering_p.Std.Text.{Text, text_key, text_discrete, trim, is_empty}
use nettverksprogrammering_p.Std.Word
use nettverksprogrammering_p.Std.Word.{Profile, u64_size}
use nettverksprogrammering_p.CrdtCore.GSet
use nettverksprogrammering_p.CrdtCore.GSet.Laws.{insert_lem}
use nettverksprogrammering_p.CrdtCore.VectorClock
use nettverksprogrammering_p.CrdtCore.VectorClock.{VectorClock, happens_before}
use nettverksprogrammering_p.CrdtCore.VectorClock.Order.{increment_advances}
use nettverksprogrammering_p.TodoApp.State.{
  TodoState, format_id, new_todo_id, store_todo, tick, add, toggle, delete,
}

-- The state has room for one more operation: neither its clock nor its ids overflow.
pub record HasRoom (s : TodoState) : Type 0 where
  pub ticks : VectorClock.get s.clock s.replica_id + 1 < u64_size
  pub counts : s.next_local_id + 1 < u64_size

-- The browser shows the todo, if there is a text for it.
unfoldable pub is_visible : TodoState → Text → Bool
is_visible s id = GSet.contains s.added id && not (GSet.contains s.removed id)

abbrev pub next_id : TodoState → Text
next_id s = format_id s.peer_id (s.next_local_id + 1)

tick_fits :
    (p : Profile) (s : TodoState)
    → HasRoom s
    → (clock : VectorClock) × (tick p s ≡ some (record s { clock = clock }))
      × (happens_before s.clock clock ≡ true)
unfolding tick
tick_fits p s room =
    let (clock, returns, _, before) = increment_advances p s.clock s.replica_id room.ticks in
    (clock, rw returns, before)

-- A text that is not blank is added, trimmed, under the next id of the replica, as not completed
-- and as made by this peer. Every other entry stays, and the clock advances.
pub add_fits :
    (p : Profile) (s : TodoState) (text : Text)
    → HasRoom s
    → is_empty (trim text) ≡ false
    → (s' : TodoState) × (add p s text ≡ some s')
      × ((j : Text)
          → HashMap.get s'.texts j
            ≡ ite (text_discrete (next_id s) j) (some (trim text)) (HashMap.get s.texts j))
      × ((j : Text)
          → HashMap.get s'.creators j
            ≡ ite (text_discrete (next_id s) j) (some s.peer_id) (HashMap.get s.creators j))
      × ((j : Text)
          → HashMap.get s'.completed j
            ≡ ite (text_discrete (next_id s) j) (some false) (HashMap.get s.completed j))
      × ((j : Text)
          → GSet.contains s'.added j
            ≡ ite (text_discrete (next_id s) j) true (GSet.contains s.added j))
      × (s'.removed ≡ s.removed)
      × (s'.next_local_id ≡ s.next_local_id + 1)
      × (happens_before s.clock s'.clock ≡ true)
unfolding add new_todo_id store_todo
add_fits p s text room filled =
    let (clock, ticks, before) = tick_fits p s room in
    (
      record s {
        next_local_id = s.next_local_id + 1;
        added = (GSet.insert s.added (next_id s)).0;
        texts = HashMap.insert s.texts (next_id s) (trim text);
        completed = HashMap.insert s.completed (next_id s) false;
        creators = HashMap.insert s.creators (next_id s) s.peer_id;
        clock = clock;
      },
      rw (filled, ticks, Word.add_fits p u64_size s.next_local_id 1 room.counts),
      λ j. get-insert s.texts (next_id s) (trim text) j,
      λ j. get-insert s.creators (next_id s) s.peer_id j,
      λ j. get-insert s.completed (next_id s) false j,
      λ j. (insert_lem s.added (next_id s)).1 j,
      refl,
      refl,
      before,
    )

-- Adding a blank text, toggling a todo that is unknown or deleted, and deleting an unknown one leave
-- the state as it was.
apply_ignored :
    (p : Profile) (s : TodoState) (text hidden unknown : Text)
    → is_empty (trim text) ≡ true
    → is_visible s hidden ≡ false
    → GSet.contains s.added unknown ≡ false
    → (add p s text ≡ some s) × (toggle p s hidden ≡ some s) × (delete p s unknown ≡ some s)
unfolding add toggle delete is_visible
apply_ignored p s text hidden unknown blank is_hidden is_unknown =
    (rw blank, ground arith, ground arith)

-- A todo that is visible is toggled: its flag flips, no other flag changes, and the clock advances.
pub toggle_fits :
    (p : Profile) (s : TodoState) (id : Text)
    → HasRoom s
    → is_visible s id ≡ true
    → (s' : TodoState) × (toggle p s id ≡ some s')
      × ((j : Text)
          → HashMap.get s'.completed j
            ≡ ite
                (text_discrete id j)
                (some (not (unwrap_or (HashMap.get s.completed id) false)))
                (HashMap.get s.completed j))
      × ((j : Text) → is_visible s' j ≡ is_visible s j)
      × (s'.texts ≡ s.texts)
      × (happens_before s.clock s'.clock ≡ true)
unfolding toggle is_visible
toggle_fits p s id room visible =
    let (clock, ticks, before) = tick_fits p s room in
    let flipped : Bool = not (unwrap_or (HashMap.get s.completed id) false) in
    (
      record s { clock = clock; completed = HashMap.insert s.completed id flipped },
      ground (arith, ticks),
      λ j. get-insert s.completed id flipped j,
      λ j. refl,
      refl,
      before,
    )

-- A todo that was added and is deleted is no longer visible; the visibility of every other todo
-- and all texts stay, and the clock advances.
delete_fits :
    (p : Profile) (s : TodoState) (id : Text)
    → HasRoom s
    → GSet.contains s.added id ≡ true
    → (s' : TodoState) × (delete p s id ≡ some s')
      × ((j : Text) → is_visible s' j ≡ ite (text_discrete id j) false (is_visible s j))
      × (s'.texts ≡ s.texts)
      × (happens_before s.clock s'.clock ≡ true)
unfolding delete is_visible
delete_fits p s id room known =
    let (clock, ticks, before) = tick_fits p s room in
    (
      record s { clock = clock; removed = (GSet.insert s.removed id).0 },
      ground (arith, ticks),
      λ j. ground (arith, (insert_lem s.removed id).1 j),
      refl,
      before,
    )
