-- ===== src/Examples/Clocks.antt =====
-- Vector clocks.
use Prim.Native.Nat.Ordering.{lt, eq, gt}
use nettverksprogrammering_p.Base.{ℕ, ◌≡◌, ◌↔◌, some, none}
use nettverksprogrammering_p.Std.HashMap.{nat_key}
use nettverksprogrammering_p.CrdtCore.VectorClock
use nettverksprogrammering_p.CrdtCore.VectorClock.{VectorClock}
use nettverksprogrammering_p.CrdtCore.VectorClock.Compare.{Leq, partial_cmp_iff}
use nettverksprogrammering_p.CrdtCore.VectorClock.Merge.{
  Same, HasNoZeros, clock_merge_laws, new-HasNoZeros, observe-HasNoZeros,
}

-- the clock after the replica was observed at the count
abbrev clock_of : ℕ → ℕ → VectorClock
clock_of replica count = VectorClock.observe VectorClock.new replica count

abbrev clock_a : VectorClock
clock_a = clock_of 1 3

abbrev clock_b : VectorClock
clock_b = clock_of 2 4

clock_of-HasNoZeros : (replica count : ℕ) → HasNoZeros (clock_of replica count)
clock_of-HasNoZeros replica count = observe-HasNoZeros VectorClock.new replica count new-HasNoZeros

partial_cmp_iff_example :
    ((VectorClock.partial_cmp clock_a clock_b ≡ some eq)
      ↔ (Leq clock_a clock_b × Leq clock_b clock_a))
    × ((VectorClock.partial_cmp clock_a clock_b ≡ some lt)
        ↔ (Leq clock_a clock_b × ¬ Leq clock_b clock_a))
    × ((VectorClock.partial_cmp clock_a clock_b ≡ some gt)
        ↔ (¬ Leq clock_a clock_b × Leq clock_b clock_a))
    × ((VectorClock.partial_cmp clock_a clock_b ≡ none)
        ↔ (¬ Leq clock_a clock_b × ¬ Leq clock_b clock_a))
partial_cmp_iff_example = partial_cmp_iff clock_a clock_b

clock_merge_laws_example :
    Same (VectorClock.merge clock_a clock_b) (VectorClock.merge clock_b clock_a)
    × Same
        (VectorClock.merge (VectorClock.merge clock_a clock_b) clock_a)
        (VectorClock.merge clock_a (VectorClock.merge clock_b clock_a))
    × Same (VectorClock.merge clock_a clock_a) clock_a
clock_merge_laws_example =
    clock_merge_laws clock_a clock_b clock_a (clock_of-HasNoZeros 1 3) (clock_of-HasNoZeros 2 4)
