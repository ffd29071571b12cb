-- ===== src/Examples/Checks.antt =====
-- The property tests of crates/crdt-core/src at inputs that their strategies generate.
use nettverksprogrammering_p.Base.{ℕ, ◌≡◌, true, false, some, List, [], ◌∷◌, arith}
use nettverksprogrammering_p.Std.Word.{dev}
use nettverksprogrammering_p.CrdtCore.Counter.Tests as CounterTests
use nettverksprogrammering_p.CrdtCore.Counter.Tests.{counter_props_pass}
use nettverksprogrammering_p.CrdtCore.PnCounter.{Op}
use nettverksprogrammering_p.CrdtCore.PnCounter.Tests as PnCounterTests
use nettverksprogrammering_p.CrdtCore.PnCounter.Tests.{pn_counter_props_pass}
use nettverksprogrammering_p.CrdtCore.GSet.Tests as GSetTests
use nettverksprogrammering_p.CrdtCore.GSet.Tests.{g_set_props_pass}
use nettverksprogrammering_p.CrdtCore.VectorClock.Tests as ClockTests
use nettverksprogrammering_p.CrdtCore.VectorClock.Tests.Pass.{clock_props_pass}

abbrev increments : List (ℕ × ℕ)
increments = (1, 5) ∷ (4, 99) ∷ []

abbrev others : List (ℕ × ℕ)
others = (1, 7) ∷ []

small_increments : CounterTests.Generated increments
small_increments = (((omega arith, omega arith), ((omega arith, omega arith), tt)), omega arith)

small_others : CounterTests.Generated others
small_others = (((omega arith, omega arith), tt), omega arith)

counter_props_pass_example :
    (CounterTests.prop_merge_is_commutative dev increments others ≡ some true)
    × (CounterTests.prop_merge_is_associative dev increments others [] ≡ some true)
    × (CounterTests.prop_merge_is_idempotent dev increments ≡ some true)
counter_props_pass_example =
    counter_props_pass dev increments others [] small_increments small_others (tt, omega arith)

abbrev ops : List Op
ops = (1, true, 5) ∷ (2, false, 7) ∷ []

small_ops : PnCounterTests.Generated ops
small_ops = (((omega arith, omega arith), ((omega arith, omega arith), tt)), omega arith)

pn_counter_props_pass_example :
    (PnCounterTests.prop_merge_is_commutative dev ops [] ≡ some true)
    × (PnCounterTests.prop_merge_is_associative dev ops [] ops ≡ some true)
    × (PnCounterTests.prop_merge_is_idempotent dev ops ≡ some true)
pn_counter_props_pass_example =
    pn_counter_props_pass dev ops [] ops small_ops (tt, omega arith) small_ops

g_set_props_pass_example :
    (GSetTests.prop_merge_is_commutative (1 ∷ 2 ∷ []) (2 ∷ []) ≡ true)
    × (GSetTests.prop_merge_is_associative (1 ∷ 2 ∷ []) (2 ∷ []) [] ≡ true)
    × (GSetTests.prop_merge_is_idempotent (1 ∷ 2 ∷ []) ≡ true)
g_set_props_pass_example = g_set_props_pass (1 ∷ 2 ∷ []) (2 ∷ []) []

abbrev observations : List (ℕ × ℕ)
observations = (1, 3) ∷ (2, 1) ∷ []

small_observations : ClockTests.Generated observations
small_observations = ((omega arith, (omega arith, tt)), omega arith)

clock_props_pass_example :
    (ClockTests.prop_merge_is_commutative dev observations [] ≡ some true)
    × (ClockTests.prop_merge_is_associative dev observations [] observations ≡ some true)
    × (ClockTests.prop_merge_is_idempotent dev observations ≡ some true)
    × (ClockTests.prop_increment_makes_clock_greater dev observations 2 ≡ some true)
    × (ClockTests.prop_merged_clock_dominates_both dev observations [] ≡ some true)
clock_props_pass_example =
    clock_props_pass dev observations [] observations 2 small_observations (tt, omega arith)
      small_observations
