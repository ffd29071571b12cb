-- ===== src/CrdtCore/VectorClock.antt =====
-- crates/crdt-core/src/vector_clock.rs. The proofs are in the modules below.
pub mod Compare
pub mod Merge
pub mod Order
pub mod Tests
use Prim.Native.Nat.{compare, Ordering}
use Prim.Native.Nat.Ordering.{lt, eq, gt}
use nettverksprogrammering_p.Base.{
  ℕ, ◌==◌, zero, suc, max, Bool, true, false, ◌&&◌, Option, none, some, List, [], ◌∷◌, ◌++◌, ◌>>=◌,
  unwrap_or, is_some, not, if◌then◌else◌,
}
use nettverksprogrammering_p.Std.HashMap
use nettverksprogrammering_p.Std.HashMap.{HashMap, nat_key}
use nettverksprogrammering_p.Std.HashMap.Equality
use nettverksprogrammering_p.Std.HashMap.Loop.{for_entries}
use nettverksprogrammering_p.Std.Word.{Profile, u64_size, add}
use nettverksprogrammering_p.CrdtCore.Clock.{ReplicaId}
use nettverksprogrammering_p.CrdtCore.Traits.{CvRdt}

pub record VectorClock : Type 0 where
  pub entries : HashMap ReplicaId ℕ

-- The derived `==`.
unfoldable pub equals : VectorClock → VectorClock → Bool
equals self other = Equality.eq ◌==◌ self.entries other.entries

unfoldable pub new : VectorClock
new = record { entries = HashMap.new }

unfoldable pub get : VectorClock → ReplicaId → ℕ
get self replica = unwrap_or (HashMap.get self.entries replica) 0

-- The new clock with the entry that `increment` returns; `none` is a panic on overflow.
unfoldable pub increment : Profile → VectorClock → ReplicaId → Option (VectorClock × ℕ)
increment p self replica = do
  entry ← add u64_size p (unwrap_or (HashMap.get self.entries replica) 0) 1
  some (record { entries = HashMap.insert self.entries replica entry }, entry)

abbrev observe_entry : HashMap ReplicaId ℕ → ReplicaId → ℕ → HashMap ReplicaId ℕ
observe_entry entries replica counter =
    HashMap.insert entries replica (max (unwrap_or (HashMap.get entries replica) 0) counter)

unfoldable pub observe : VectorClock → ReplicaId → ℕ → VectorClock
observe self replica zero = self
observe self replica (suc n) = record { entries = observe_entry self.entries replica (suc n) }

-- One round of the loop of `partial_cmp`: the flags `self_less` and `self_greater`.
unfoldable pub mark : Ordering → Bool → Bool → Bool × Bool
mark lt self_less self_greater = (true, self_greater)
mark gt self_less self_greater = (self_less, true)
mark eq self_less self_greater = (self_less, self_greater)

unfoldable pub verdict : Bool → Bool → Option Ordering
verdict false false = some eq
verdict true false = some lt
verdict false true = some gt
verdict true true = none

unfoldable pub compare_from :
    VectorClock → VectorClock → List ReplicaId → Bool → Bool → Option Ordering
unfolding mark verdict
compare_from self other [] self_less self_greater = verdict self_less self_greater
compare_from self other (replica ∷ rest) self_less self_greater =
    let a = unwrap_or (HashMap.get self.entries replica) 0 in
    let b = unwrap_or (HashMap.get other.entries replica) 0 in
    let (self_less', self_greater') = mark (compare a b) self_less self_greater in
    let later = compare_from self other rest self_less' self_greater' in
    if self_less' && self_greater' then none else later

unfoldable pub partial_cmp : VectorClock → VectorClock → Option Ordering
partial_cmp self other =
    compare_from self other (HashMap.keys self.entries ++ HashMap.keys other.entries) false false

unfoldable pub happens_before : VectorClock → VectorClock → Bool
happens_before self other = elim (partial_cmp self other) [
  | none ↦ false
  | some o ↦ elim o [ lt ↦ true | _ ↦ false ]
]

unfoldable pub concurrent_with : VectorClock → VectorClock → Bool
concurrent_with self other = not (is_some (partial_cmp self other))

unfoldable pub is_empty : VectorClock → Bool
is_empty self = HashMap.is_empty self.entries

-- the body of the loop of `merge`, which skips a count of 0
abbrev pub merge_entry : ReplicaId → ℕ → HashMap ReplicaId ℕ → HashMap ReplicaId ℕ
merge_entry replica zero entries = entries
merge_entry replica (suc n) entries = observe_entry entries replica (suc n)

unfoldable pub merge : VectorClock → VectorClock → VectorClock
merge self other = record { entries = for_entries other.entries merge_entry self.entries }

instance abbrev pub cvrdt : CvRdt VectorClock
cvrdt = record { merge = merge }
