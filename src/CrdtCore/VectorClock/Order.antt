-- ===== src/CrdtCore/VectorClock/Order.antt =====
-- Causality: `happens_before` and `concurrent_with`, and what an increment does to them.
use native.Mathlib.Nat.{le_trans}
use nettverksprogrammering_p.Base.{◌+◌, ◌<◌, ◌≡◌, ◌≢◌, ◌↔◌, true, some, arith, ite, ℕ_discrete}
use nettverksprogrammering_p.Std.HashMap
use nettverksprogrammering_p.Std.HashMap.{HashMap, nat_key, get-insert}
use nettverksprogrammering_p.Std.Word.{Profile, u64_size, add_fits}
use nettverksprogrammering_p.CrdtCore.Clock.{ReplicaId}
use nettverksprogrammering_p.CrdtCore.VectorClock.{
  VectorClock, get, increment, happens_before, concurrent_with,
}
use nettverksprogrammering_p.CrdtCore.VectorClock.Compare.{Leq, partial_cmp_iff}

-- A clock happens before another exactly where none of its entries is ahead and the clocks differ.
pub happens_before_iff : (a b : VectorClock) → (happens_before a b ≡ true) ↔ (Leq a b × ¬ Leq b a)
unfolding happens_before
happens_before_iff a b = (
  λ h. (partial_cmp_iff a b).1.0 (ground arith),
  λ h. ground (arith, (partial_cmp_iff a b).1.1 h),
)

-- Two clocks are concurrent exactly where each has an entry ahead of the other.
pub concurrent_with_iff :
    (a b : VectorClock) → (concurrent_with a b ≡ true) ↔ (¬ Leq a b × ¬ Leq b a)
unfolding concurrent_with
concurrent_with_iff a b =
    (λ h. (partial_cmp_iff a b).3.0 (ground arith), λ h. rw ((partial_cmp_iff a b).3.1 h))

-- `happens_before` is a strict order: it is transitive, and where one clock happens before a second,
-- the second does not happen before the first, nor either before itself.
happens_before_strict :
    (a b c : VectorClock)
    → happens_before a b ≡ true
    → happens_before b c ≡ true
    → (happens_before a c ≡ true) × (happens_before b a ≢ true) × (happens_before a a ≢ true)
happens_before_strict a b c h k =
    let (ab, not_ba) = (happens_before_iff a b).0 h in
    let (bc, not_cb) = (happens_before_iff b c).0 k in
    (
      (happens_before_iff a c).1
          (λ r. le_trans (ab r) (bc r), λ ca. not_ba (λ r. le_trans (bc r) (ca r))),
      λ e. not_ba ((happens_before_iff b a).0 e).0,
      λ e. let (le, not_le) = (happens_before_iff a a).0 e in not_le le,
    )

-- Concurrency is symmetric, and excludes that either clock happens before the other.
concurrent_with_sym :
    (a b : VectorClock)
    → concurrent_with a b ≡ true
    → (concurrent_with b a ≡ true) × (happens_before a b ≢ true) × (happens_before b a ≢ true)
concurrent_with_sym a b h =
    let (not_ab, not_ba) = (concurrent_with_iff a b).0 h in
    (
      (concurrent_with_iff b a).1 (not_ba, not_ab),
      λ k. not_ab ((happens_before_iff a b).0 k).0,
      λ k. not_ba ((happens_before_iff b a).0 k).0,
    )

-- Where the entry does not overflow, an increment returns in either profile: the entry that it
-- returns is one more than before and is the one in the new clock, all other entries stay, and
-- the old clock happens before the new one.
pub increment_advances :
    (p : Profile) (c : VectorClock) (r : ReplicaId)
    → get c r + 1 < u64_size
    → (c' : VectorClock) × (increment p c r ≡ some (c', get c r + 1))
      × ((j : ReplicaId) → get c' j ≡ ite (ℕ_discrete r j) (get c r + 1) (get c j))
      × (happens_before c c' ≡ true)
unfolding increment get
increment_advances p c r h =
    let c' : VectorClock = record { entries = HashMap.insert c.entries r (get c r + 1) } in
    let reads : (j : ReplicaId) → get c' j ≡ ite (ℕ_discrete r j) (get c r + 1) (get c j) =
      λ j. ground (arith, get-insert c.entries r (get c r + 1) j) in
    (
      c',
      rw (add_fits p u64_size (get c r) 1 h),
      reads,
      (happens_before_iff c c').1
          (λ j. ground (arith, reads j), λ le. ground (arith, reads r, le r)),
    )
