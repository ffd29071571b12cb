-- ===== src/CrdtCore/VectorClock/Tests.antt =====
-- The tests of crates/crdt-core/src/vector_clock.rs. `none` is a panic, `some false` a failed
-- assertion.
pub mod Pass
use Prim.Native.Nat.{Ordering}
use Prim.Native.Nat.Ordering.{lt, eq, gt}
use nettverksprogrammering_p.Base.{
  ℕ, zero, suc, ◌+◌, ◌*◌, ◌<◌, ◌≤◌, ◌≡◌, ◌≢◌, refl, ap, ◌∙◌, sym, ◌↔◌, Bool, true, false, not, ◌&&◌,
  Option, none, some, List, [], ◌∷◌, ◌>>=◌, ◌==◌, ==_iff, ℕ_discrete, All, arith, is_some, length,
  sum, map, Option-cases, inl, inr, max, ite,
}
use nettverksprogrammering_p.Std.HashMap
use nettverksprogrammering_p.Std.HashMap.{nat_key, get-new}
use nettverksprogrammering_p.Std.HashMap.Entries.{put, lookup}
use nettverksprogrammering_p.Std.HashMap.Equality
use nettverksprogrammering_p.Std.Word.{Profile, dev, release, u64_size, add, add_fits}
use nettverksprogrammering_p.CrdtCore.Clock.{ReplicaId}
use nettverksprogrammering_p.CrdtCore.Traits.Checks.{
  commutes, associates, absorbs_itself, checks_hold,
}
use nettverksprogrammering_p.CrdtCore.VectorClock.{
  VectorClock, new, increment, get, observe, happens_before, concurrent_with, partial_cmp, merge,
  equals, cvrdt,
}
use nettverksprogrammering_p.CrdtCore.VectorClock.Compare.{Leq, partial_cmp_iff}
use nettverksprogrammering_p.CrdtCore.VectorClock.Merge.{
  Same, HasNoZeros, VectorClock-IsConvergent, new-HasNoZeros, increment-HasNoZeros, merge-dominates,
}
use nettverksprogrammering_p.CrdtCore.VectorClock.Order.{happens_before_iff, increment_advances}

unfoldable pub increment_times : Profile → VectorClock → ReplicaId → ℕ → Option VectorClock
increment_times p v r zero = some v
increment_times p v r (suc n) = do (v', _) ← increment p v r; increment_times p v' r n

unfoldable pub build_from : Profile → VectorClock → List (ReplicaId × ℕ) → Option VectorClock
build_from p v [] = some v
build_from p v ((r, n) ∷ ops) = do v' ← increment_times p v r n; build_from p v' ops

abbrev pub build : Profile → List (ReplicaId × ℕ) → Option VectorClock
build p ops = build_from p new ops

unfoldable pub prop_merge_is_commutative :
    Profile → List (ReplicaId × ℕ) → List (ReplicaId × ℕ) → Option Bool
prop_merge_is_commutative p ops_a ops_b = do
  a ← build p ops_a
  b ← build p ops_b
  some (commutes cvrdt equals a b)

unfoldable pub prop_merge_is_associative :
    Profile → List (ReplicaId × ℕ) → List (ReplicaId × ℕ) → List (ReplicaId × ℕ) → Option Bool
prop_merge_is_associative p ops_a ops_b ops_c = do
  a ← build p ops_a
  b ← build p ops_b
  c ← build p ops_c
  some (associates cvrdt equals a b c)

unfoldable pub prop_merge_is_idempotent : Profile → List (ReplicaId × ℕ) → Option Bool
prop_merge_is_idempotent p ops = do a ← build p ops; some (absorbs_itself cvrdt equals a)

unfoldable pub prop_increment_makes_clock_greater :
    Profile → List (ReplicaId × ℕ) → ReplicaId → Option Bool
prop_increment_makes_clock_greater p ops replica = do
  before ← build p ops
  (after, _) ← increment p before replica
  some (happens_before before after && not (happens_before after before))

abbrev is_equal : Option Ordering → Bool
is_equal (some eq) = true
is_equal _ = false

abbrev is_less : Option Ordering → Bool
is_less (some lt) = true
is_less _ = false

-- `matches!(o, Some(Ordering::Less) | Some(Ordering::Equal))`
unfoldable pub is_less_or_equal : Option Ordering → Bool
is_less_or_equal none = false
is_less_or_equal (some lt) = true
is_less_or_equal (some eq) = true
is_less_or_equal (some gt) = false

unfoldable pub prop_merged_clock_dominates_both :
    Profile → List (ReplicaId × ℕ) → List (ReplicaId × ℕ) → Option Bool
prop_merged_clock_dominates_both p ops_a ops_b = do
  a ← build p ops_a
  b ← build p ops_b
  let merged = merge a b
  some (is_less_or_equal (partial_cmp a merged) && is_less_or_equal (partial_cmp b merged))

-- The strategy `vec((0u64..5, 0u8..10), 0..20)`.
abbrev pub Generated : List (ReplicaId × ℕ) → Type 0
Generated ops = All (λ o. (o.0 < 5) × (o.1 < 10)) ops × (length ops < 20)

unfoldable pub empty_clocks_are_equal : Bool
empty_clocks_are_equal = equals new new && is_equal (partial_cmp new new)

unfoldable pub increment_advances_own_counter : Profile → Option Bool
increment_advances_own_counter p = do
  (a, n) ← increment p new 1
  (a', n') ← increment p a 1
  some (n == 1 && n' == 2 && get a' 1 == 2 && get a' 2 == 0)

unfoldable pub happens_before_detected : Profile → Option Bool
happens_before_detected p = do
  (a, _) ← increment p new 1
  (b, _) ← increment p a 1
  some (happens_before a b && not (happens_before b a) && is_less (partial_cmp a b))

unfoldable pub concurrent_events_detected : Profile → Option Bool
concurrent_events_detected p = do
  (a, _) ← increment p new 1
  (b, _) ← increment p new 2
  some (concurrent_with a b && concurrent_with b a && not (is_some (partial_cmp a b)))

unfoldable pub equal_clocks_are_not_concurrent : Profile → Option Bool
equal_clocks_are_not_concurrent p = do
  (a, _) ← increment p new 1
  some (not (concurrent_with a a) && not (happens_before a a))

unfoldable pub merge_takes_elementwise_max : Profile → Option Bool
merge_takes_elementwise_max p = do
  (a, _) ← increment p new 1
  (a', _) ← increment p a 1
  (b, _) ← increment p new 1
  (b', _) ← increment p b 2
  let merged = merge a' b'
  some (get merged 1 == 2 && get merged 2 == 1)

unfoldable pub observe_advances_when_higher : Bool
observe_advances_when_higher =
    let a = observe new 1 5 in
    let a' = observe a 1 3 in
    let a'' = observe a' 1 7 in get a 1 == 5 && get a' 1 == 5 && get a'' 1 == 7
