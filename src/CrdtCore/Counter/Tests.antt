-- ===== src/CrdtCore/Counter/Tests.antt =====
-- The tests of crates/crdt-core/src/counter.rs. `none` is a panic, `some false` a failed assertion.
use nettverksprogrammering_p.Base.{
  ℕ_discrete, ℕ, ◌*◌, ◌<◌, ◌≤◌, ◌≡◌, refl, ◌↔◌, Bool, true, Option, some, List, [], ◌∷◌, ◌>>=◌,
  ◌==◌, ==_iff, All, arith, length,
}
use nettverksprogrammering_p.Std.HashMap
use nettverksprogrammering_p.Std.HashMap.{nat_key}
use nettverksprogrammering_p.Std.HashMap.Entries.{put, lookup}
use nettverksprogrammering_p.Std.HashMap.Equality.{eq, eq_iff}
use nettverksprogrammering_p.Std.Word.{Profile, dev, release, add, sum_from}
use nettverksprogrammering_p.CrdtCore.Clock.{ReplicaId}
use nettverksprogrammering_p.CrdtCore.Traits.Checks.{
  commutes, associates, absorbs_itself, checks_hold,
}
use nettverksprogrammering_p.CrdtCore.Counter.{
  GCounter, new, increment, value, merge, equals, cvrdt, build,
}
use nettverksprogrammering_p.CrdtCore.Counter.Merge.{Same, GCounter-IsConvergent}
use nettverksprogrammering_p.CrdtCore.Counter.Value.{amounts, build-value}

-- The derived `==` holds exactly of counters with the same counts.
pub equals_iff : (a b : GCounter) → (equals a b ≡ true) ↔ Same a b
unfolding equals
equals_iff a b = eq_iff ◌==◌ ==_iff a.counts b.counts

unfoldable pub prop_merge_is_commutative :
    Profile → List (ReplicaId × ℕ) → List (ReplicaId × ℕ) → Option Bool
prop_merge_is_commutative p ops_a ops_b = do
  a ← build p ops_a
  b ← build p ops_b
  some (commutes cvrdt equals a b)

unfoldable pub prop_merge_is_associative :
    Profile → List (ReplicaId × ℕ) → List (ReplicaId × ℕ) → List (ReplicaId × ℕ) → Option Bool
prop_merge_is_associative p ops_a ops_b ops_c = do
  a ← build p ops_a
  b ← build p ops_b
  c ← build p ops_c
  some (associates cvrdt equals a b c)

unfoldable pub prop_merge_is_idempotent : Profile → List (ReplicaId × ℕ) → Option Bool
prop_merge_is_idempotent p ops = do a ← build p ops; some (absorbs_itself cvrdt equals a)

-- The strategy `vec((0u64..5, 0u64..100), 0..20)`.
abbrev pub Generated : List (ReplicaId × ℕ) → Type 0
Generated ops = All (λ o. (o.0 < 5) × (o.1 < 100)) ops × (length ops < 20)

amounts-le :
    (ops : List (ReplicaId × ℕ))
    → All (λ o. (o.0 < 5) × (o.1 < 100)) ops
    → amounts ops ≤ 100 * length ops
amounts-le [] h = omega arith
amounts-le (o ∷ ops) h = omega (arith, h.0.1, amounts-le ops h.1)

build_returns :
    (p : Profile) (ops : List (ReplicaId × ℕ))
    → Generated ops
    → (c : GCounter) × (build p ops ≡ some c)
build_returns p ops g =
    let (c, built, _) = build-value p ops (omega (arith, amounts-le ops g.0, g.1)) in (c, built)

-- The property tests pass, in either profile, on every input that their strategies generate.
pub counter_props_pass :
    (p : Profile) (ops_a ops_b ops_c : List (ReplicaId × ℕ))
    → Generated ops_a
    → Generated ops_b
    → Generated ops_c
    → (prop_merge_is_commutative p ops_a ops_b ≡ some true)
      × (prop_merge_is_associative p ops_a ops_b ops_c ≡ some true)
      × (prop_merge_is_idempotent p ops_a ≡ some true)
unfolding prop_merge_is_commutative prop_merge_is_associative prop_merge_is_idempotent
counter_props_pass p ops_a ops_b ops_c ga gb gc =
    let (a, built_a) = build_returns p ops_a ga in
    let (b, built_b) = build_returns p ops_b gb in
    let (c, built_c) = build_returns p ops_c gc in
    let (comm, assoc, idem) = checks_hold GCounter-IsConvergent equals equals_iff a b c tt tt in
    (rw (built_a, built_b, comm), rw (built_a, built_b, built_c, assoc), rw (built_a, idem))

unfoldable pub empty_counter_is_zero : Profile → Option Bool
empty_counter_is_zero p = do v ← value p new; some (v == 0)

unfoldable pub single_replica_increments_accumulate : Profile → Option Bool
single_replica_increments_accumulate p = do
  c ← increment p new 1 5
  c' ← increment p c 1 7
  v ← value p c'
  some (v == 12)

unfoldable pub merge_combines_replicas : Profile → Option Bool
merge_combines_replicas p = do
  a ← increment p new 1 5
  b ← increment p new 2 3
  v ← value p (merge a b)
  some (v == 8)

unfoldable pub merge_is_idempotent : Profile → Option Bool
merge_is_idempotent p = do a ← increment p new 1 5; some (absorbs_itself cvrdt equals a)

unfoldable pub merge_is_commutative : Profile → Option Bool
merge_is_commutative p = do
  a ← increment p new 1 3
  b ← increment p new 2 4
  some (commutes cvrdt equals a b)

-- the example in the documentation of the module
unfoldable pub doc_example : Profile → Option Bool
doc_example p = do
  a ← increment p new 1 3
  b ← increment p new 2 4
  v ← value p (merge a b)
  some (v == 7)

-- The unit tests and the documented example pass in either profile.
unit_tests_pass :
    (p : Profile)
    → (empty_counter_is_zero p ≡ some true)
      × (single_replica_increments_accumulate p ≡ some true)
      × (merge_combines_replicas p ≡ some true)
      × (merge_is_idempotent p ≡ some true)
      × (merge_is_commutative p ≡ some true)
      × (doc_example p ≡ some true)
unfolding doc_example empty_counter_is_zero single_replica_increments_accumulate
    merge_combines_replicas merge_is_idempotent merge_is_commutative new increment value merge
    equals eq HashMap.new HashMap.get HashMap.insert HashMap.values HashMap.len put lookup add
    sum_from ℕ_discrete
unit_tests_pass dev = (refl, refl, refl, refl, refl, refl)
unit_tests_pass release = (refl, refl, refl, refl, refl, refl)
