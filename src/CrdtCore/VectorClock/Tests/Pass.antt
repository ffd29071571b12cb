-- ===== src/CrdtCore/VectorClock/Tests/Pass.antt =====
-- The tests of the vector clock, on their inputs.
use Prim.Native.Nat.Ordering.{lt, eq, gt}
use nettverksprogrammering_p.Base.{
  ℕ, zero, suc, ◌+◌, ◌*◌, ◌<◌, ◌≤◌, ◌≡◌, refl, ◌∙◌, sym, ◌↔◌, true, not, ◌&&◌, some, List, [], ◌∷◌,
  ◌==◌, ==_iff, ℕ_discrete, All, arith, length, sum, map, Option-cases, inl, inr, Bool-cases,
}
use nettverksprogrammering_p.Std.HashMap
use nettverksprogrammering_p.Std.HashMap.{nat_key, get-new}
use nettverksprogrammering_p.Std.HashMap.Entries.{put, lookup}
use nettverksprogrammering_p.Std.HashMap.Equality
use nettverksprogrammering_p.Std.Word.{Profile, dev, release, u64_size, add, add_fits}
use nettverksprogrammering_p.CrdtCore.Clock.{ReplicaId}
use nettverksprogrammering_p.CrdtCore.Traits.Checks.{checks_hold}
use nettverksprogrammering_p.CrdtCore.VectorClock
use nettverksprogrammering_p.CrdtCore.VectorClock.{
  VectorClock, new, increment, get, observe, happens_before, concurrent_with, partial_cmp, merge,
  equals, cvrdt,
}
use nettverksprogrammering_p.CrdtCore.VectorClock.Compare.{Leq, partial_cmp_iff}
use nettverksprogrammering_p.CrdtCore.VectorClock.Merge.{
  Same, HasNoZeros, VectorClock-IsConvergent, new-HasNoZeros, increment-HasNoZeros, merge-dominates,
}
use nettverksprogrammering_p.CrdtCore.VectorClock.Order.{happens_before_iff, increment_advances}
use nettverksprogrammering_p.CrdtCore.VectorClock.Tests.{
  Generated, increment_times, build_from, build, prop_merge_is_commutative,
  prop_merge_is_associative, prop_merge_is_idempotent, prop_increment_makes_clock_greater,
  is_less_or_equal, prop_merged_clock_dominates_both, empty_clocks_are_equal,
  increment_advances_own_counter, happens_before_detected, concurrent_events_detected,
  equal_clocks_are_not_concurrent, merge_takes_elementwise_max, observe_advances_when_higher,
}

-- The derived `==` holds exactly of clocks with the same entries.
pub equals_iff : (a b : VectorClock) → (equals a b ≡ true) ↔ Same a b
unfolding equals
equals_iff a b = Equality.eq_iff ◌==◌ ==_iff a.entries b.entries

abbrev rounds : List (ReplicaId × ℕ) → ℕ
rounds ops = sum (map (λ o. o.1) ops)

rounds-le :
    (ops : List (ReplicaId × ℕ))
    → All (λ o. (o.0 < 5) × (o.1 < 10)) ops
    → rounds ops ≤ 10 * length ops
rounds-le [] h = omega arith
rounds-le (o ∷ ops) h = omega (arith, h.0.1, rounds-le ops h.1)

-- No entry is 0, and none is above `bound`.
record IsBuilt (bound : ℕ) (c : VectorClock) : Type 0 where
  no_zeros : HasNoZeros c
  within : (r : ReplicaId) → get c r ≤ bound

increment_dev :
    (p : Profile) (c : VectorClock) (r : ReplicaId)
    → get c r + 1 < u64_size
    → increment p c r ≡ increment dev c r
unfolding increment get
increment_dev p c r h = rw (add_fits p u64_size (get c r) 1 h, add_fits dev u64_size (get c r) 1 h)

increment-IsBuilt :
    (p : Profile) (bound : ℕ) (c : VectorClock) (r : ReplicaId)
    → bound + 1 < u64_size
    → IsBuilt bound c
    → (c' : VectorClock) × (n : ℕ) × (increment p c r ≡ some (c', n)) × IsBuilt (bound + 1) c'
increment-IsBuilt p bound c r fits h =
    let room : get c r + 1 < u64_size = omega (arith, h.within r) in
    let (c', returns, at, _) = increment_advances p c r room in
    (
      c',
      get c r + 1,
      returns,
      record {
        no_zeros =
            increment-HasNoZeros c c' r _ h.no_zeros (sym (increment_dev p c r room) ∙ returns);
        within = λ j. ground (arith, at j, h.within j, h.within r);
      },
    )

IsBuilt-mono :
    (bound bound' : ℕ) (c : VectorClock) → bound ≤ bound' → IsBuilt bound c → IsBuilt bound' c
IsBuilt-mono bound bound' c le h = record {
  no_zeros = h.no_zeros;
  within = λ r. omega (arith, h.within r);
}

increment_times-IsBuilt :
    (p : Profile) (bound : ℕ) (c : VectorClock) (r : ReplicaId) (n : ℕ)
    → bound + n < u64_size
    → IsBuilt bound c
    → (c' : VectorClock) × (increment_times p c r n ≡ some c') × IsBuilt (bound + n) c'
unfolding increment_times
increment_times-IsBuilt p bound c r zero fits h = (c, refl, IsBuilt-mono _ _ _ (omega arith) h)
increment_times-IsBuilt p bound c r (suc n) fits h =
    let (d, k, returns, built) = increment-IsBuilt p bound c r (omega arith) h in
    let (c', rest, all) = increment_times-IsBuilt p (bound + 1) d r n (omega arith) built in
    (c', rw returns rest, IsBuilt-mono _ _ _ (omega arith) all)

build_from-IsBuilt :
    (p : Profile) (bound : ℕ) (c : VectorClock) (ops : List (ReplicaId × ℕ))
    → bound + rounds ops < u64_size
    → IsBuilt bound c
    → (c' : VectorClock) × (build_from p c ops ≡ some c') × IsBuilt (bound + rounds ops) c'
unfolding build_from
build_from-IsBuilt p bound c [] fits h = (c, refl, IsBuilt-mono _ _ _ (omega arith) h)
build_from-IsBuilt p bound c ((r, n) ∷ ops) fits h =
    let (d, returns, built) = increment_times-IsBuilt p bound c r n (omega arith) h in
    let (c', rest, all) = build_from-IsBuilt p (bound + n) d ops (omega arith) built in
    (c', rw returns rest, IsBuilt-mono _ _ _ (omega arith) all)

build_returns :
    (p : Profile) (ops : List (ReplicaId × ℕ))
    → Generated ops
    → (c : VectorClock) × (build p ops ≡ some c) × IsBuilt 200 c
unfolding get new
build_returns p ops g =
    let start : IsBuilt 0 new = record {
      no_zeros = new-HasNoZeros;
      within = λ r. ground (arith, get-new {V = ℕ} r);
    } in
    let (c, built, all) =
      build_from-IsBuilt p 0 new ops (omega (arith, rounds-le ops g.0, g.1)) start in
    (c, built, IsBuilt-mono _ _ _ (omega (arith, rounds-le ops g.0, g.1)) all)

happens_before_next :
    (before after : VectorClock)
    → happens_before before after ≡ true
    → (happens_before before after && not (happens_before after before)) ≡ true
happens_before_next before after h = elim (Bool-cases (happens_before after before)) [
  | inl back ↦
      absurd
        (((happens_before_iff before after).0 h).1 ((happens_before_iff after before).0 back).0)
  | inr no_back ↦ rw (h, no_back)
]

Leq-partial_cmp : (a b : VectorClock) → Leq a b → is_less_or_equal (partial_cmp a b) ≡ true
unfolding is_less_or_equal
Leq-partial_cmp a b le = elim (Option-cases (partial_cmp a b)) [
  | inl e ↦ absurd (((partial_cmp_iff a b).3.0 e).0 le)
  | inr (lt, e) ↦ rw e
  | inr (eq, e) ↦ rw e
  | inr (gt, e) ↦ absurd (((partial_cmp_iff a b).2.0 e).0 le)
]

Leq-refl : (a : VectorClock) → Leq a a
Leq-refl a r = omega arith

-- The property tests pass, in either profile, on every input that their strategies generate.
pub clock_props_pass :
    (p : Profile) (ops_a ops_b ops_c : List (ReplicaId × ℕ)) (replica : ReplicaId)
    → Generated ops_a
    → Generated ops_b
    → Generated ops_c
    → (prop_merge_is_commutative p ops_a ops_b ≡ some true)
      × (prop_merge_is_associative p ops_a ops_b ops_c ≡ some true)
      × (prop_merge_is_idempotent p ops_a ≡ some true)
      × (prop_increment_makes_clock_greater p ops_a replica ≡ some true)
      × (prop_merged_clock_dominates_both p ops_a ops_b ≡ some true)
unfolding prop_merge_is_commutative prop_merge_is_associative prop_merge_is_idempotent
    prop_increment_makes_clock_greater prop_merged_clock_dominates_both
clock_props_pass p ops_a ops_b ops_c replica ga gb gc =
    let (a, built_a, ok_a) = build_returns p ops_a ga in
    let (b, built_b, ok_b) = build_returns p ops_b gb in
    let (c, built_c, ok_c) = build_returns p ops_c gc in
    let (comm, assoc, idem) =
      checks_hold VectorClock-IsConvergent equals equals_iff a b c ok_a.no_zeros ok_b.no_zeros in
    let (after, returns, _, before) =
      increment_advances p a replica (omega (arith, ok_a.within replica)) in
    let (above_a, above_b) = (merge-dominates a b (merge a b)).0 (Leq-refl (merge a b)) in
    (
      rw (built_a, built_b, comm),
      rw (built_a, built_b, built_c, assoc),
      rw (built_a, idem),
      rw (built_a, returns, happens_before_next a after before),
      rw (
        built_a,
        built_b,
        Leq-partial_cmp a (merge a b) above_a,
        Leq-partial_cmp b (merge a b) above_b,
      ),
    )

-- The unit tests pass in either profile.
unit_tests_pass :
    (p : Profile)
    → (empty_clocks_are_equal ≡ true)
      × (increment_advances_own_counter p ≡ some true)
      × (happens_before_detected p ≡ some true)
      × (concurrent_events_detected p ≡ some true)
      × (equal_clocks_are_not_concurrent p ≡ some true)
      × (merge_takes_elementwise_max p ≡ some true)
      × (observe_advances_when_higher ≡ true)
unfolding empty_clocks_are_equal increment_advances_own_counter happens_before_detected
    concurrent_events_detected equal_clocks_are_not_concurrent merge_takes_elementwise_max
    observe_advances_when_higher new increment get observe happens_before concurrent_with
    partial_cmp VectorClock.compare_from merge equals Equality.eq HashMap.new HashMap.get
    HashMap.insert HashMap.keys HashMap.len put lookup add ℕ_discrete
unit_tests_pass dev = (refl, refl, refl, refl, refl, refl, refl)
unit_tests_pass release = (refl, refl, refl, refl, refl, refl, refl)
