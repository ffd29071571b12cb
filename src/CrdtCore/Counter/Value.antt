-- ===== src/CrdtCore/Counter/Value.antt =====
-- What `value` reads, after increments and merges.
use native.Mathlib.Nat.{zero-add}
use nettverksprogrammering_p.Base.{
  ℕ, ◌+◌, ◌%◌, ◌≤◌, ◌<◌, ◌≡◌, refl, ◌≢◌, ite, none, some, List, [], ◌∷◌, map, arith, ltb,
  if◌then◌else◌, sum, ℕ_discrete, ap, ◌∙◌,
}
use nettverksprogrammering_p.Std.HashMap
use nettverksprogrammering_p.Std.HashMap.{HashMap, nat_key, get-insert}
use nettverksprogrammering_p.Std.HashMap.Sum.{
  total, amount, total-insert, total-le, total_congr, amount-le-total, total-new,
}
use nettverksprogrammering_p.Std.Word.{
  Profile, dev, release, u64_size, add, add_fits, sum_from_dev, sum_from_release,
}
use nettverksprogrammering_p.CrdtCore.Clock.{ReplicaId}
use nettverksprogrammering_p.CrdtCore.Counter.{
  GCounter, new, increment, value, merge, build_from, build,
}
use nettverksprogrammering_p.CrdtCore.Counter.Merge.{count_of, Same, get-merge}

-- The sum that `value` computes: in the dev profile a panic exactly where it overflows, in the
-- release profile its remainder.
pub value_lem :
    (c : GCounter)
    → (value dev c ≡ (if ltb (total c.counts) u64_size then some (total c.counts) else none))
      × (value release c ≡ some (total c.counts % u64_size))
unfolding value
value_lem c = (
  simp zero-add at (sum_from_dev 0 (HashMap.values c.counts) (omega arith)),
  simp zero-add at (sum_from_release 0 (HashMap.values c.counts) (omega arith)),
)

-- Counters that are equal have the same value in either profile, whatever the order in which
-- their maps iterate.
value_congr : (p : Profile) (a b : GCounter) → Same a b → value p a ≡ value p b
value_congr dev a b h =
    ground (arith, (value_lem a).0, (value_lem b).0, total_congr a.counts b.counts h)
value_congr release a b h =
    ground (arith, (value_lem a).1, (value_lem b).1, total_congr a.counts b.counts h)

pub value_fits :
    (p : Profile) (c : GCounter) → total c.counts < u64_size → value p c ≡ some (total c.counts)
value_fits dev c h = ground (arith, (value_lem c).0)
value_fits release c h = ground (arith, (value_lem c).1)

-- Where the count of the replica does not overflow, an increment returns in either profile, adds
-- `n` to the total, and leaves the counts of all other replicas alone.
pub increment_fits :
    (p : Profile) (c : GCounter) (r : ReplicaId) (n : ℕ)
    → amount c.counts r + n < u64_size
    → (c' : GCounter) × (increment p c r n ≡ some c')
      × (total c'.counts ≡ total c.counts + n)
      × ((j : ReplicaId)
          → count_of c' j ≡ ite (ℕ_discrete r j) (some (amount c.counts r + n)) (count_of c j))
unfolding increment
increment_fits p c r n h = (
  record { counts = HashMap.insert c.counts r (amount c.counts r + n) },
  rw (add_fits p u64_size (amount c.counts r) n h),
  omega (arith, total-insert c.counts r (amount c.counts r + n)),
  λ j. get-insert c.counts r (amount c.counts r + n) j,
)

-- Where the count of the replica overflows, the dev profile panics. The release profile wraps, and
-- the total of a counter that is meant to grow falls.
pub increment_overflows :
    (c : GCounter) (r : ReplicaId) (n : ℕ)
    → amount c.counts r < u64_size
    → n < u64_size
    → u64_size ≤ amount c.counts r + n
    → (increment dev c r n ≡ none)
      × (c' : GCounter) × (increment release c r n ≡ some c')
      × (total c'.counts < total c.counts)
unfolding increment add
increment_overflows c r n hc hn over =
    let wrapped : ℕ = (amount c.counts r + n) % u64_size in
    (
      ground arith,
      record { counts = HashMap.insert c.counts r wrapped },
      refl,
      omega (arith, total-insert c.counts r wrapped, amount-le-total c.counts r),
    )

abbrev pub amounts : List (ReplicaId × ℕ) → ℕ
amounts ops = sum (map (λ o. o.1) ops)

build_from-value :
    (p : Profile) (c : GCounter) (ops : List (ReplicaId × ℕ))
    → total c.counts + amounts ops < u64_size
    → (c' : GCounter) × (build_from p c ops ≡ some c')
      × (value p c' ≡ some (total c.counts + amounts ops))
unfolding build_from
build_from-value p c [] h = (c, refl, rw (value_fits p c (omega arith)) (ap some (omega arith)))
build_from-value p c ((r, n) ∷ ops) h =
    let (c', returns, added, _) =
      increment_fits p c r n (omega (arith, amount-le-total c.counts r)) in
    let (d, built, reads) = build_from-value p c' ops (omega arith) in
    (d, rw returns built, rw reads (ap some (omega arith)))

-- A counter that is built by any increments, by any replicas and in any order, whose amounts sum
-- to less than 2^64, is built without a panic and has their sum for its value, in either profile.
pub build-value :
    (p : Profile) (ops : List (ReplicaId × ℕ))
    → amounts ops < u64_size
    → (c : GCounter) × (build p ops ≡ some c) × (value p c ≡ some (amounts ops))
unfolding new
build-value p ops h =
    let (c, built, reads) = build_from-value p new ops (omega (arith, total-new ReplicaId)) in
    (c, built, rw reads (ap some (omega (arith, total-new ReplicaId))))

-- A merge loses no increment: the total of the result is at least that of either side.
pub total-merge-le :
    (a b : GCounter)
    → (total a.counts ≤ total (merge a b).counts) × (total b.counts ≤ total (merge a b).counts)
total-merge-le a b = (
  total-le a.counts (merge a b).counts (λ r. ground (arith, get-merge a b r)),
  total-le b.counts (merge a b).counts (λ r. ground (arith, get-merge a b r)),
)

-- `a` and `b` are `c` with the counts of `r` and of `s` raised.
merge_disjoint :
    (c a b : GCounter) (r s : ReplicaId) (n m : ℕ)
    → r ≢ s
    → ((j : ReplicaId)
        → count_of a j ≡ ite (ℕ_discrete r j) (some (amount c.counts r + n)) (count_of c j))
    → total a.counts ≡ total c.counts + n
    → ((j : ReplicaId)
        → count_of b j ≡ ite (ℕ_discrete s j) (some (amount c.counts s + m)) (count_of c j))
    → total (merge a b).counts ≡ total c.counts + n + m
merge_disjoint c a b r s n m ne at_a added at_b =
    let y : ℕ = amount c.counts s + m in
    let kept : amount a.counts s ≡ amount c.counts s = ground (arith, at_a s) in
    total_congr (merge a b).counts (HashMap.insert a.counts s y)
      (λ j. ground (arith, get-merge a b j, at_a j, at_b j, get-insert a.counts s y j))
    ∙ omega (arith, total-insert a.counts s y)

-- Two replicas increment their own counts from a common state, and merge: both amounts are in the
-- total, once.
concurrent_increments :
    (p : Profile) (c a b : GCounter) (r s : ReplicaId) (n m : ℕ)
    → r ≢ s
    → amount c.counts r + n < u64_size
    → amount c.counts s + m < u64_size
    → increment p c r n ≡ some a
    → increment p c s m ≡ some b
    → total (merge a b).counts ≡ total c.counts + n + m
concurrent_increments p c a b r s n m ne fr fs ea eb =
    let (a', returns_a, added_a, at_a) = increment_fits p c r n fr in
    let (b', returns_b, added_b, at_b) = increment_fits p c s m fs in
    let is_a : a' ≡ a = cc in
    let is_b : b' ≡ b = cc in
    rw (← is_a, ← is_b) (merge_disjoint c a' b' r s n m ne at_a added_a at_b)
