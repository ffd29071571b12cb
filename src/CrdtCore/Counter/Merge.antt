-- ===== src/CrdtCore/Counter/Merge.antt =====
-- `GCounter::merge` as the maximum for each replica, and its laws.
use nettverksprogrammering_p.Base.{ℕ, max, ◌≡◌, Option, none, some, arith, ◌∙◌, unwrap_or}
use nettverksprogrammering_p.Std.HashMap
use nettverksprogrammering_p.Std.HashMap.{HashMap, nat_key}
use nettverksprogrammering_p.Std.HashMap.Loop.{get-for_entries, combine}
use nettverksprogrammering_p.CrdtCore.Clock.{ReplicaId}
use nettverksprogrammering_p.CrdtCore.Traits.{IsConvergent}
use nettverksprogrammering_p.CrdtCore.Traits.Pointwise.{pointwise}
use nettverksprogrammering_p.CrdtCore.Counter.{GCounter, merge, merge_count, cvrdt}

-- What one replica has counted: nothing is less than a count of 0.
abbrev pub join : Option ℕ → Option ℕ → Option ℕ
join a none = a
join none (some m) = some m
join (some n) (some m) = some (max n m)

abbrev pub count_of : GCounter → ReplicaId → Option ℕ
count_of a r = HashMap.get a.counts r

-- The derived `==`: two maps are equal if they hold the same counts, in whatever order.
abbrev pub Same : GCounter → GCounter → Type 0
Same a b = (r : ReplicaId) → count_of a r ≡ count_of b r

abbrev max_with : ℕ → Option ℕ → Option ℕ
max_with m o = some (max (unwrap_or o 0) m)

combine-max_with : (x y : Option ℕ) → combine max_with y x ≡ join x y
combine-max_with x y = ground arith

-- After a merge each replica counts the larger of its two counts, and no replica is lost.
pub get-merge :
    (a b : GCounter) (r : ReplicaId) → count_of (merge a b) r ≡ join (count_of a r) (count_of b r)
unfolding merge
get-merge a b r =
    get-for_entries merge_count max_with (λ k v m j. HashMap.get-insert m k _ j) b.counts a.counts r
    ∙ combine-max_with (count_of a r) (count_of b r)

pub join_comm : (x y : Option ℕ) → join x y ≡ join y x
join_comm x y = ground arith

pub join_assoc : (x y z : Option ℕ) → join (join x y) z ≡ join x (join y z)
join_assoc x y z = ground arith

pub join_idem : (x : Option ℕ) → join x x ≡ x
join_idem x = ground arith

-- The merge of the grow-only counter satisfies the laws of a convergent type, for all states.
pub GCounter-IsConvergent : IsConvergent (λ _. Unit) Same cvrdt
GCounter-IsConvergent =
    pointwise (λ _. Unit) count_of cvrdt join get-merge (λ a b _ _. tt)
      (λ a b _ _ r. join_comm (count_of a r) (count_of b r)) join_assoc join_idem
