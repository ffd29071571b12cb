-- ===== src/CrdtCore/PnCounter/Laws.antt =====
-- The laws of the merge, and what `value` reads.
use nettverksprogrammering_p.Base.{
  ℕ, ◌+◌, ◌<◌, ◌^◌, ◌≡◌, refl, ap, ap₂, true, false, some, List, [], ◌∷◌, arith, if◌then◌else◌,
}
use nettverksprogrammering_p.Base.Int.{ℤ, sub_ℕ, pos_part, neg_part}
use nettverksprogrammering_p.Std.HashMap.{nat_key}
use nettverksprogrammering_p.Std.HashMap.Sum.{total, amount-le-total, total-new}
use nettverksprogrammering_p.Std.Word.{Profile, dev, release, u64_size}
use nettverksprogrammering_p.CrdtCore.Clock.{ReplicaId}
use nettverksprogrammering_p.CrdtCore.Counter
use nettverksprogrammering_p.CrdtCore.Counter.Merge as CounterMerge
use nettverksprogrammering_p.CrdtCore.Counter.Merge.{
  count_of, join, get-merge, join_comm, join_assoc, join_idem,
}
use nettverksprogrammering_p.CrdtCore.Traits.Pointwise.{pointwise, both}
use nettverksprogrammering_p.CrdtCore.Counter.Value.{increment_fits, value_fits, value_lem}
use nettverksprogrammering_p.CrdtCore.Traits.{IsConvergent}
use nettverksprogrammering_p.CrdtCore.PnCounter.{
  PnCounter, Op, new, value, merge, cvrdt, increment, decrement, build_from, build,
}

-- The derived `==`.
abbrev pub Same : PnCounter → PnCounter → Type 0
Same a b = CounterMerge.Same a.increments b.increments × CounterMerge.Same a.decrements b.decrements

-- The merge of the counter satisfies the laws of a convergent type, for all states: both halves do.
pub PnCounter-IsConvergent : IsConvergent (λ _. Unit) Same cvrdt
unfolding merge
PnCounter-IsConvergent =
    both
      (pointwise (λ _. Unit) (λ c. count_of c.increments) cvrdt join
        (λ a b. get-merge a.increments b.increments) (λ a b _ _. tt)
        (λ a b _ _ r. join_comm (count_of a.increments r) (count_of b.increments r)) join_assoc
        join_idem)
      (pointwise (λ _. Unit) (λ c. count_of c.decrements) cvrdt join
        (λ a b. get-merge a.decrements b.decrements) (λ a b _ _. tt)
        (λ a b _ _ r. join_comm (count_of a.decrements r) (count_of b.decrements r)) join_assoc
        join_idem)

counter_value-lt :
    (p : Profile) (c : Counter.GCounter) (v : ℕ) → Counter.value p c ≡ some v → v < u64_size
counter_value-lt dev c v h = ground (arith, (value_lem c).0)
counter_value-lt release c v h = ground (arith, (value_lem c).1)

-- A value that is returned lies strictly between -2^64 and 2^64, so the subtraction in `i128`,
-- whose range ends at -2^127 and 2^127 - 1, does not overflow.
pub value-fits_i128 :
    (p : Profile) (c : PnCounter) (z : ℤ)
    → value p c ≡ some z
    → (pos_part z < 2 ^ 64) × (neg_part z < 2 ^ 64)
unfolding value
value-fits_i128 p c z h = grind (arith, counter_value-lt)

abbrev pub ups : List Op → ℕ
ups [] = 0
ups ((r, is_inc, n) ∷ ops) = (if is_inc then n else 0) + ups ops

abbrev pub downs : List Op → ℕ
downs [] = 0
downs ((r, is_inc, n) ∷ ops) = (if is_inc then 0 else n) + downs ops

build_from-value :
    (p : Profile) (c : PnCounter) (ops : List Op)
    → total c.increments.counts + ups ops < u64_size
    → total c.decrements.counts + downs ops < u64_size
    → (c' : PnCounter) × (build_from p c ops ≡ some c')
      × (value p c'
          ≡ some
              (sub_ℕ (total c.increments.counts + ups ops) (total c.decrements.counts + downs ops)))
unfolding build_from value increment decrement
build_from-value p c [] hu hd = (
  c,
  refl,
  rw (value_fits p c.increments (omega arith)) (
      rw (value_fits p c.decrements (omega arith))
        (ap some (ap₂ sub_ℕ (omega arith) (omega arith)))),
)
build_from-value p c ((r, true, n) ∷ ops) hu hd =
    let (i, returns, added, _) =
      increment_fits p c.increments r n (omega (arith, amount-le-total c.increments.counts r)) in
    let (d, built, reads) =
      build_from-value p (record c { increments = i }) ops (omega arith) (omega arith) in
    (d, rw returns built, rw reads (ap some (ap₂ sub_ℕ (omega arith) (omega arith))))
build_from-value p c ((r, false, n) ∷ ops) hu hd =
    let (i, returns, added, _) =
      increment_fits p c.decrements r n (omega (arith, amount-le-total c.decrements.counts r)) in
    let (d, built, reads) =
      build_from-value p (record c { decrements = i }) ops (omega arith) (omega arith) in
    (d, rw returns built, rw reads (ap some (ap₂ sub_ℕ (omega arith) (omega arith))))

-- A counter that is built by any increments and decrements, whose two sums fit in a `u64`, is built
-- without a panic, and its value is the sum of the increments less that of the decrements.
pub build-value_signed :
    (p : Profile) (ops : List Op)
    → ups ops < u64_size
    → downs ops < u64_size
    → (c : PnCounter) × (build p ops ≡ some c) × (value p c ≡ some (sub_ℕ (ups ops) (downs ops)))
unfolding new Counter.new
build-value_signed p ops hu hd =
    let (c, built, reads) =
      build_from-value p new ops (omega (arith, total-new ReplicaId))
        (omega (arith, total-new ReplicaId)) in
    (
      c,
      built,
      rw reads (
          ap some
            (ap₂ sub_ℕ (omega (arith, total-new ReplicaId)) (omega (arith, total-new ReplicaId)))),
    )
