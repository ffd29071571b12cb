-- ===== src/TodoApp/State.antt =====
-- crates/todo-app/src/state.rs: the state of one replica of the todo list. The proofs are in the
-- modules below.
pub mod Apply
pub mod Effects
pub mod Ids
pub mod Merge
pub mod Restart
pub mod Snapshot
pub mod Sorting
pub mod Shown
pub mod Tests
pub mod Toggles
pub mod Tidy
pub mod Lasting
pub mod Total
pub mod Writes
use Prim.Native.Nat.{Ordering}
use Prim.Native.Nat.Ordering.{lt, eq, gt}
use mathlib.Core.Bool.{not}
use nettverksprogrammering_p.Base.{
  ℕ, ◌+◌, Bool, true, false, ◌||◌, Option, none, some, List, [], ◌∷◌, ◌++◌, ◌>>=◌, unwrap_or,
  if◌then◌else◌,
}
use nettverksprogrammering_p.Std.HashMap
use nettverksprogrammering_p.Std.HashMap.{HashMap, nat_key}
use nettverksprogrammering_p.Std.HashMap.Loop.{for_entries}
use nettverksprogrammering_p.Std.Text.{Text, text_key, trim, is_empty, cmp}
use nettverksprogrammering_p.Std.Text.Decimal.{to_decimal}
use nettverksprogrammering_p.Std.Word.{Profile, u64_size, add as add_word}
use nettverksprogrammering_p.CrdtCore.Clock.{ReplicaId}
use nettverksprogrammering_p.CrdtCore.GSet
use nettverksprogrammering_p.CrdtCore.GSet.{GSet}
use nettverksprogrammering_p.CrdtCore.Traits.{CvRdt}
use nettverksprogrammering_p.CrdtCore.VectorClock
use nettverksprogrammering_p.CrdtCore.VectorClock.{VectorClock}
use nettverksprogrammering_p.TodoApp.Protocol.{TodoItem, PeerSnapshot, ServerMessage, ClientMessage}

-- `peer_id`, `replica_id` and `next_local_id` are not sent to other replicas (`#[serde(skip)]`).
pub record TodoState : Type 0 where
  pub peer_id : Text
  pub replica_id : ReplicaId
  pub next_local_id : ℕ
  pub added : GSet Text
  pub removed : GSet Text
  pub texts : HashMap Text Text
  pub completed : HashMap Text Bool
  pub creators : HashMap Text Text
  pub clock : VectorClock

unfoldable pub new : Text → ReplicaId → TodoState
new peer_id replica_id = record {
  peer_id = peer_id;
  replica_id = replica_id;
  next_local_id = 0;
  added = GSet.new;
  removed = GSet.new;
  texts = HashMap.new;
  completed = HashMap.new;
  creators = HashMap.new;
  clock = VectorClock.new;
}

-- `format!("{}-{}", peer_id, n)`
unfoldable pub format_id : Text → ℕ → Text
format_id peer_id n = peer_id ++ b'-' ∷ to_decimal n

-- The state with the id counted, and the new id; `none` is a panic on overflow.
unfoldable pub new_todo_id : Profile → TodoState → Option (TodoState × Text)
new_todo_id p self = do
  next ← add_word u64_size p self.next_local_id 1
  some (record self { next_local_id = next }, format_id self.peer_id next)

-- the four writes at the end of `add`
unfoldable pub store_todo : TodoState → Text → Text → TodoState
store_todo self id text = record self {
  added = (GSet.insert self.added id).0;
  texts = HashMap.insert self.texts id text;
  completed = HashMap.insert self.completed id false;
  creators = HashMap.insert self.creators id self.peer_id;
}

-- `self.clock.increment(self.replica_id)`, whose result the callers drop
unfoldable pub tick : Profile → TodoState → Option TodoState
tick p self = do
  (clock, _) ← VectorClock.increment p self.clock self.replica_id
  some (record self { clock = clock })

unfoldable pub add : Profile → TodoState → Text → Option TodoState
add p self text =
    let trimmed = trim text in
    if is_empty trimmed then some self else do
      ticked ← tick p self
      (counted, id) ← new_todo_id p ticked
      some (store_todo counted id trimmed)

unfoldable pub toggle : Profile → TodoState → Text → Option TodoState
toggle p self id =
    if not (GSet.contains self.added id) || GSet.contains self.removed id then some self else do
      ticked ← tick p self
      let current = unwrap_or (HashMap.get ticked.completed id) false
      some (record ticked { completed = HashMap.insert ticked.completed id (not current) })

unfoldable pub delete : Profile → TodoState → Text → Option TodoState
delete p self id = if not (GSet.contains self.added id) then some self else do
  ticked ← tick p self
  some (record ticked { removed = (GSet.insert ticked.removed id).0 })

unfoldable pub apply : Profile → TodoState → ClientMessage → Option TodoState
apply p self (ClientMessage.add text) = add p self text
apply p self (ClientMessage.toggle id) = toggle p self id
apply p self (ClientMessage.delete id) = delete p self id
apply p self ClientMessage.resync = some self

-- the item of an added id, `none` if it is removed or has no text
unfoldable pub todo_item : TodoState → Text → Option TodoItem
todo_item self id = if GSet.contains self.removed id then none else do
  text ← HashMap.get self.texts id
  some (record {
    id = id;
    text = text;
    completed = unwrap_or (HashMap.get self.completed id) false;
    created_by = unwrap_or (HashMap.get self.creators id) self.peer_id;
  })

unfoldable pub collect_items : TodoState → List Text → List TodoItem
collect_items self [] = []
collect_items self (id ∷ ids) = elim (todo_item self id) [
  | none ↦ collect_items self ids
  | some item ↦ item ∷ collect_items self ids
]

-- `sort_by(|a, b| a.id.cmp(&b.id))`, which is stable
unfoldable pub insert_item : TodoItem → List TodoItem → List TodoItem
insert_item a [] = a ∷ []
insert_item a (b ∷ items) = elim (cmp a.id b.id) [
  | gt ↦ b ∷ insert_item a items
  | _ ↦ a ∷ b ∷ items
]

unfoldable pub sort_items : List TodoItem → List TodoItem
sort_items [] = []
sort_items (a ∷ items) = insert_item a (sort_items items)

unfoldable pub todos : TodoState → List TodoItem
todos self = sort_items (collect_items self (GSet.iter self.added))

-- "Peer "
abbrev peer_prefix : Text
peer_prefix = b'P' ∷ b'e' ∷ b'e' ∷ b'r' ∷ b' ' ∷ []

unfoldable pub snapshot : TodoState → ServerMessage
snapshot self = ServerMessage.snapshot self.peer_id (
    record {
      id = self.peer_id;
      name = peer_prefix ++ self.peer_id;
      online = true;
      clock = HashMap.insert HashMap.new self.peer_id (VectorClock.get self.clock self.replica_id);
      todos = todos self;
    }
    ∷ [])

-- the bodies of the loops of `merge`
abbrev pub keep_first : Text → Text → HashMap Text Text → HashMap Text Text
keep_first id text texts = elim (HashMap.get texts id) [
  | none ↦ HashMap.insert texts id text
  | some _ ↦ texts
]

abbrev pub merge_completed : Text → Bool → HashMap Text Bool → HashMap Text Bool
merge_completed id remote_completed completed =
    let entry = unwrap_or (HashMap.get completed id) false in
    HashMap.insert completed id (entry || remote_completed)

unfoldable pub merge : TodoState → TodoState → TodoState
merge self other = record self {
  added = GSet.merge self.added other.added;
  removed = GSet.merge self.removed other.removed;
  texts = for_entries other.texts keep_first self.texts;
  creators = for_entries other.creators keep_first self.creators;
  completed = for_entries other.completed merge_completed self.completed;
  clock = VectorClock.merge self.clock other.clock;
}

instance abbrev pub cvrdt : CvRdt TodoState
cvrdt = record { merge = merge }
