-- ===== src/Examples/Counters.antt =====
-- Counters and sets.
use nettverksprogrammering_p.Base.{
  ℕ, ◌-◌, ◌<◌, ◌≡◌, true, false, none, some, refl, List, In, first, next, [], ◌∷◌, arith,
  ℕ_discrete,
}
use nettverksprogrammering_p.Base.Int.{negsuc}
use nettverksprogrammering_p.Std.HashMap
use nettverksprogrammering_p.Std.HashMap.{HashMap, nat_key}
use nettverksprogrammering_p.Std.HashMap.Entries.{put, lookup}
use nettverksprogrammering_p.Std.HashMap.Sum.{total}
use nettverksprogrammering_p.Std.Word.{dev, release, u64_size, add as add_word}
use nettverksprogrammering_p.CrdtCore.Traits.Delivery.{merge_all}
use nettverksprogrammering_p.CrdtCore.Counter
use nettverksprogrammering_p.CrdtCore.Counter.{GCounter}
use nettverksprogrammering_p.CrdtCore.Clock.{ReplicaId}
use nettverksprogrammering_p.CrdtCore.Counter.Deliveries.{AreBuilt, deliveries-value}
use nettverksprogrammering_p.CrdtCore.Counter.Value.{increment_overflows}
use nettverksprogrammering_p.CrdtCore.PnCounter
use nettverksprogrammering_p.CrdtCore.PnCounter.{PnCounter}
use nettverksprogrammering_p.CrdtCore.PnCounter.Laws.{build-value_signed}
use nettverksprogrammering_p.CrdtCore.GSet
use nettverksprogrammering_p.CrdtCore.GSet.{GSet}

abbrev counter_with : ℕ → ℕ → GCounter
counter_with replica count = record { counts = HashMap.insert HashMap.new replica count }

-- replica 1 has counted 2 and 3
abbrev counter_a : GCounter
counter_a = record { counts = HashMap.insert (HashMap.insert HashMap.new 1 2) 1 5 }

abbrev counter_b : GCounter
counter_b = counter_with 2 7

also_twice :
    (x : GCounter)
    → In x (counter_a ∷ counter_b ∷ [])
    → In x (counter_b ∷ counter_a ∷ counter_b ∷ [])
also_twice x first = next first
also_twice x (next m) = next (next m)

also_once :
    (x : GCounter)
    → In x (counter_b ∷ counter_a ∷ counter_b ∷ [])
    → In x (counter_a ∷ counter_b ∷ [])
also_once x first = next first
also_once x (next m) = m

-- replica 1 counts 2 and 3, replica 2 counts 7
abbrev parts : List (ReplicaId × List ℕ)
parts = (1, 2 ∷ 3 ∷ []) ∷ (2, 7 ∷ []) ∷ []

parts-AreBuilt : AreBuilt dev parts (counter_a ∷ counter_b ∷ [])
unfolding Counter.build_from Counter.increment Counter.new HashMap.insert HashMap.new HashMap.get
    put lookup ℕ_discrete add_word
parts-AreBuilt = (refl, ((λ e. cc), tt), (refl, tt, tt))

deliveries-value_example :
    Counter.value dev (merge_all Counter.cvrdt Counter.new (counter_b ∷ counter_a ∷ counter_b ∷ []))
    ≡ some 12
deliveries-value_example =
    deliveries-value dev parts (counter_a ∷ counter_b ∷ []) (counter_b ∷ counter_a ∷ counter_b ∷ [])
      parts-AreBuilt (omega arith) also_twice also_once

increment_overflows_example :
    (Counter.increment dev (counter_with 1 (u64_size - 1)) 1 2 ≡ none)
    × (c' : GCounter) × (Counter.increment release (counter_with 1 (u64_size - 1)) 1 2 ≡ some c')
    × (total c'.counts < total (counter_with 1 (u64_size - 1)).counts)
unfolding HashMap.insert HashMap.new HashMap.get put lookup ℕ_discrete
increment_overflows_example =
    increment_overflows (counter_with 1 (u64_size - 1)) 1 2 (omega arith) (omega arith)
      (omega arith)

abbrev pn : PnCounter
pn = record { increments = counter_with 1 5; decrements = counter_with 2 7 }

build-value_signed_example :
    (c : PnCounter) × (PnCounter.build dev ((1, true, 5) ∷ (2, false, 7) ∷ []) ≡ some c)
    × (PnCounter.value dev c ≡ some (negsuc 1))
build-value_signed_example =
    build-value_signed dev ((1, true, 5) ∷ (2, false, 7) ∷ []) (omega arith) (omega arith)

abbrev three : GSet ℕ
three = GSet.build (3 ∷ [])
