-- ===== src/CrdtCore/PnCounter/Tests.antt =====
-- The tests of crates/crdt-core/src/pn_counter.rs. `none` is a panic, `some false` a failed
-- assertion.
use nettverksprogrammering_p.Base.{
  ◌*◌, ◌<◌, ◌≤◌, ◌≡◌, refl, ◌↔◌, Bool, true, false, Option, some, List, [], ◌∷◌, ◌>>=◌, ℕ_discrete,
  All, arith, length,
}
use nettverksprogrammering_p.Base.Int.{pos, negsuc, ℤ_eq}
use nettverksprogrammering_p.Std.HashMap
use nettverksprogrammering_p.Std.HashMap.{nat_key}
use nettverksprogrammering_p.Std.HashMap.Entries.{put, lookup}
use nettverksprogrammering_p.Std.HashMap.Equality.{eq}
use nettverksprogrammering_p.Std.Word.{Profile, dev, release, add, sum_from}
use nettverksprogrammering_p.CrdtCore.Counter
use nettverksprogrammering_p.CrdtCore.Counter.Tests as CounterTests
use nettverksprogrammering_p.CrdtCore.Traits.Checks.{
  commutes, associates, absorbs_itself, checks_hold,
}
use nettverksprogrammering_p.CrdtCore.PnCounter.{
  PnCounter, Op, new, increment, decrement, value, merge, equals, cvrdt, build,
}
use nettverksprogrammering_p.CrdtCore.PnCounter.Laws.{
  Same, PnCounter-IsConvergent, ups, downs, build-value_signed,
}

-- The derived `==` holds exactly of counters with the same counts in both halves.
pub equals_iff : (a b : PnCounter) → (equals a b ≡ true) ↔ Same a b
unfolding equals
equals_iff a b =
    let i = CounterTests.equals_iff a.increments b.increments in
    let d = CounterTests.equals_iff a.decrements b.decrements in
    (λ h. (i.0 (ground arith), d.0 (ground arith)), λ h. ground (arith, i.1 h.0, d.1 h.1))

unfoldable pub prop_merge_is_commutative : Profile → List Op → List Op → Option Bool
prop_merge_is_commutative p ops_a ops_b = do
  a ← build p ops_a
  b ← build p ops_b
  some (commutes cvrdt equals a b)

unfoldable pub prop_merge_is_associative : Profile → List Op → List Op → List Op → Option Bool
prop_merge_is_associative p ops_a ops_b ops_c = do
  a ← build p ops_a
  b ← build p ops_b
  c ← build p ops_c
  some (associates cvrdt equals a b c)

unfoldable pub prop_merge_is_idempotent : Profile → List Op → Option Bool
prop_merge_is_idempotent p ops = do a ← build p ops; some (absorbs_itself cvrdt equals a)

-- The strategy `vec((0u64..5, any::<bool>(), 0u64..100), 0..20)`.
abbrev pub Generated : List Op → Type 0
Generated ops = All (λ o. (o.0 < 5) × (o.2 < 100)) ops × (length ops < 20)

totals_bound :
    (ops : List Op)
    → All (λ o. (o.0 < 5) × (o.2 < 100)) ops
    → (ups ops ≤ 100 * length ops) × (downs ops ≤ 100 * length ops)
totals_bound [] h = omega arith
totals_bound ((r, true, n) ∷ ops) h = omega (arith, h.0.1, totals_bound ops h.1)
totals_bound ((r, false, n) ∷ ops) h = omega (arith, h.0.1, totals_bound ops h.1)

build_returns :
    (p : Profile) (ops : List Op) → Generated ops → (c : PnCounter) × (build p ops ≡ some c)
build_returns p ops g =
    let bounds = totals_bound ops g.0 in
    let (c, built, _) =
      build-value_signed p ops (omega (arith, bounds, g.1)) (omega (arith, bounds, g.1)) in
    (c, built)

-- The property tests pass, in either profile, on every input that their strategies generate.
pub pn_counter_props_pass :
    (p : Profile) (ops_a ops_b ops_c : List Op)
    → Generated ops_a
    → Generated ops_b
    → Generated ops_c
    → (prop_merge_is_commutative p ops_a ops_b ≡ some true)
      × (prop_merge_is_associative p ops_a ops_b ops_c ≡ some true)
      × (prop_merge_is_idempotent p ops_a ≡ some true)
unfolding prop_merge_is_commutative prop_merge_is_associative prop_merge_is_idempotent
pn_counter_props_pass p ops_a ops_b ops_c ga gb gc =
    let (a, built_a) = build_returns p ops_a ga in
    let (b, built_b) = build_returns p ops_b gb in
    let (c, built_c) = build_returns p ops_c gc in
    let (comm, assoc, idem) = checks_hold PnCounter-IsConvergent equals equals_iff a b c tt tt in
    (rw (built_a, built_b, comm), rw (built_a, built_b, built_c, assoc), rw (built_a, idem))

unfoldable pub empty_counter_is_zero : Profile → Option Bool
empty_counter_is_zero p = do v ← value p new; some (ℤ_eq v (pos 0))

unfoldable pub increments_and_decrements_combine : Profile → Option Bool
increments_and_decrements_combine p = do
  c ← increment p new 1 10
  c' ← decrement p c 1 3
  v ← value p c'
  some (ℤ_eq v (pos 7))

unfoldable pub value_can_be_negative : Profile → Option Bool
value_can_be_negative p = do c ← decrement p new 1 5; v ← value p c; some (ℤ_eq v (negsuc 4))

unfoldable pub merge_combines_replicas : Profile → Option Bool
merge_combines_replicas p = do
  a ← increment p new 1 5
  a' ← decrement p a 1 1
  b ← increment p new 2 3
  b' ← decrement p b 2 2
  v ← value p (merge a' b')
  some (ℤ_eq v (pos 5))

unfoldable pub merge_is_idempotent : Profile → Option Bool
merge_is_idempotent p = do
  a ← increment p new 1 5
  a' ← decrement p a 1 2
  some (absorbs_itself cvrdt equals a')

-- The unit tests pass in either profile.
unit_tests_pass :
    (p : Profile)
    → (empty_counter_is_zero p ≡ some true)
      × (increments_and_decrements_combine p ≡ some true)
      × (value_can_be_negative p ≡ some true)
      × (merge_combines_replicas p ≡ some true)
      × (merge_is_idempotent p ≡ some true)
unfolding empty_counter_is_zero increments_and_decrements_combine value_can_be_negative
    merge_combines_replicas merge_is_idempotent new increment decrement value merge equals
    Counter.new Counter.increment Counter.value Counter.merge Counter.equals eq HashMap.new
    HashMap.get HashMap.insert HashMap.values HashMap.len put lookup add sum_from ℕ_discrete
unit_tests_pass dev = (refl, refl, refl, refl, refl)
unit_tests_pass release = (refl, refl, refl, refl, refl)
