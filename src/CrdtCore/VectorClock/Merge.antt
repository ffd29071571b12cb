-- ===== src/CrdtCore/VectorClock/Merge.antt =====
-- `merge` and `observe`: the larger of two entries, and the laws of a convergent type.
use Prim.Native.Nat.Ordering.{eq}
use native.Mathlib.Nat.{le_trans, le-max_left, le-max_right, max-le}
use nettverksprogrammering_p.Base.{
  ℕ, zero, suc, max, ◌+◌, ◌≡◌, refl, ◌≢◌, ◌↔◌, Option, none, some, arith, ite, ℕ_discrete,
  unwrap_or, ◌∙◌,
}
use nettverksprogrammering_p.Std.HashMap
use nettverksprogrammering_p.Std.HashMap.{HashMap, nat_key, get-insert, get-new}
use nettverksprogrammering_p.Std.HashMap.Loop.{get-for_entries, combine}
use nettverksprogrammering_p.Std.Word.{dev, add}
use nettverksprogrammering_p.CrdtCore.Clock.{ReplicaId}
use nettverksprogrammering_p.CrdtCore.Traits.{IsConvergent}
use nettverksprogrammering_p.CrdtCore.Traits.Pointwise.{pointwise}
use nettverksprogrammering_p.CrdtCore.VectorClock.{
  VectorClock, new, get, increment, observe, partial_cmp, merge, merge_entry, cvrdt,
}
use nettverksprogrammering_p.CrdtCore.VectorClock.Compare.{Leq, partial_cmp_iff}

abbrev pub entry_of : VectorClock → ReplicaId → Option ℕ
entry_of c r = HashMap.get c.entries r

-- The derived `==` compares the maps, not what `get` reads.
abbrev pub Same : VectorClock → VectorClock → Type 0
Same a b = (r : ReplicaId) → entry_of a r ≡ entry_of b r

-- The program's invariant: no entry is 0, so a clock has an entry for each replica that it knows
-- of and for no other.
pub record HasNoZeros (c : VectorClock) : Type 0 where
  pub at : (r : ReplicaId) → entry_of c r ≢ some 0

-- An entry of 0 in the clock that is merged in is skipped.
abbrev pub join : Option ℕ → Option ℕ → Option ℕ
join a none = a
join a (some zero) = a
join none (some (suc m)) = some (suc m)
join (some n) (some (suc m)) = some (max n (suc m))

abbrev merge_with : ℕ → Option ℕ → Option ℕ
merge_with zero o = o
merge_with (suc m) o = some (max (unwrap_or o 0) (suc m))

merge_entry-get :
    (r : ReplicaId) (n : ℕ) (m : HashMap ReplicaId ℕ) (j : ReplicaId)
    → HashMap.get (merge_entry r n m) j
      ≡ ite (ℕ_discrete r j) (merge_with n (HashMap.get m r)) (HashMap.get m j)
merge_entry-get r zero m j = ground arith
merge_entry-get r (suc n) m j = get-insert m r (max (unwrap_or (HashMap.get m r) 0) (suc n)) j

combine-merge_with : (x y : Option ℕ) → combine merge_with y x ≡ join x y
combine-merge_with x none = refl
combine-merge_with x (some zero) = refl
combine-merge_with none (some (suc m)) = ground arith
combine-merge_with (some n) (some (suc m)) = refl

pub entry-merge :
    (a b : VectorClock) (r : ReplicaId)
    → entry_of (merge a b) r ≡ join (entry_of a r) (entry_of b r)
unfolding merge
entry-merge a b r =
    get-for_entries merge_entry merge_with merge_entry-get b.entries a.entries r
    ∙ combine-merge_with (entry_of a r) (entry_of b r)

join-max : (x y : Option ℕ) → unwrap_or (join x y) 0 ≡ max (unwrap_or x 0) (unwrap_or y 0)
join-max x y = ground arith

-- The merge reads, for each replica, the larger of the two entries.
pub get-merge : (a b : VectorClock) (r : ReplicaId) → get (merge a b) r ≡ max (get a r) (get b r)
unfolding get
get-merge a b r = rw (entry-merge a b r) (join-max (entry_of a r) (entry_of b r))

-- Nothing but the entry of the replica changes, which becomes the larger of the two; an observed
-- count of 0 changes nothing at all.
pub get-observe :
    (c : VectorClock) (r : ReplicaId) (n : ℕ) (j : ReplicaId)
    → get (observe c r n) j ≡ ite (ℕ_discrete r j) (max (get c r) n) (get c j)
unfolding observe get
get-observe c r zero j = ground arith
get-observe c r (suc n) j = ground (arith, get-insert c.entries r (max (get c r) (suc n)) j)

-- A clock dominates the merged clock exactly where it dominates both clocks that were merged.
pub merge-dominates : (a b z : VectorClock) → Leq (merge a b) z ↔ (Leq a z × Leq b z)
merge-dominates a b z = (
  λ h. (
    λ r. le_trans (le-max_left (get a r) (get b r)) (rw (← get-merge a b r) (h r)),
    λ r. le_trans (le-max_right (get a r) (get b r)) (rw (← get-merge a b r) (h r)),
  ),
  λ h r. rw (get-merge a b r) (max-le (h.0 r) (h.1 r)),
)

pub new-HasNoZeros : HasNoZeros new
unfolding new
new-HasNoZeros = record { at = λ r. ground (arith, get-new {V = ℕ} r) }

join-ne-zero : (x y : Option ℕ) → x ≢ some 0 → y ≢ some 0 → join x y ≢ some 0
join-ne-zero x y h k = ground arith

merge-HasNoZeros : (a b : VectorClock) → HasNoZeros a → HasNoZeros b → HasNoZeros (merge a b)
merge-HasNoZeros a b h k = record {
  at = λ r. rw (entry-merge a b r) (join-ne-zero _ _ (h.at r) (k.at r));
}

pub observe-HasNoZeros :
    (c : VectorClock) (r : ReplicaId) (n : ℕ) → HasNoZeros c → HasNoZeros (observe c r n)
unfolding observe
observe-HasNoZeros c r zero h = h
observe-HasNoZeros c r (suc n) h = record {
  at = λ j.
      ground (arith, h.at j, get-insert c.entries r (max (unwrap_or (entry_of c r) 0) (suc n)) j);
}

pub increment-HasNoZeros :
    (c c' : VectorClock) (r : ReplicaId) (n : ℕ)
    → HasNoZeros c
    → increment dev c r ≡ some (c', n)
    → HasNoZeros c'
unfolding increment add get
increment-HasNoZeros c c' r n h e = record {
  at = λ j. ground (arith, h.at j, get-insert c.entries r (get c r + 1) j);
}

-- Every operation of the clock keeps the invariant that no entry is 0: it holds of a new clock, and
-- is kept by an increment that returns in the dev profile, an observation and a merge.
operations-HaveNoZeros :
    (a b c : VectorClock) (r : ReplicaId) (n m : ℕ)
    → HasNoZeros a
    → HasNoZeros b
    → increment dev a r ≡ some (c, n)
    → HasNoZeros new × HasNoZeros c × HasNoZeros (observe a r m) × HasNoZeros (merge a b)
operations-HaveNoZeros a b c r n m h k e = (
  new-HasNoZeros,
  increment-HasNoZeros a c r n h e,
  observe-HasNoZeros a r m h,
  merge-HasNoZeros a b h k,
)

pub join_comm : (x y : Option ℕ) → x ≢ some 0 → y ≢ some 0 → join x y ≡ join y x
join_comm x y h k = ground arith

pub join_assoc : (x y z : Option ℕ) → join (join x y) z ≡ join x (join y z)
join_assoc x y z = ground arith

pub join_idem : (x : Option ℕ) → join x x ≡ x
join_idem x = ground arith

-- The merge satisfies the laws of a convergent type for all clocks that have no entry of 0.
pub VectorClock-IsConvergent : IsConvergent HasNoZeros Same cvrdt
VectorClock-IsConvergent =
    pointwise HasNoZeros entry_of cvrdt join entry-merge merge-HasNoZeros
      (λ a b h k r. join_comm (entry_of a r) (entry_of b r) (h.at r) (k.at r)) join_assoc join_idem

-- For two clocks without an entry of 0, and any third clock: merging the two in either order gives
-- the same entries, merging all three in either grouping does, and merging the first with itself gives
-- its own.
pub clock_merge_laws :
    (a b c : VectorClock)
    → HasNoZeros a
    → HasNoZeros b
    → Same (merge a b) (merge b a)
      × Same (merge (merge a b) c) (merge a (merge b c))
      × Same (merge a a) a
clock_merge_laws a b c h k =
    let laws = VectorClock-IsConvergent in
    (laws.merge_comm a b h k, laws.merge_assoc a b c, laws.merge_idem a)

-- For clocks without an entry of 0 `partial_cmp` answers `Equal` exactly where the derived `==` holds, as
-- `PartialOrd` requires.
partial_cmp-eq_iff :
    (a b : VectorClock) → HasNoZeros a → HasNoZeros b → (partial_cmp a b ≡ some eq) ↔ Same a b
unfolding get
partial_cmp-eq_iff a b h k = (
  λ e r. let (ab, ba) = (partial_cmp_iff a b).0.0 e in ground (arith, ab r, ba r, h.at r, k.at r),
  λ e. (partial_cmp_iff a b).0.1 (λ r. ground (arith, e r), λ r. ground (arith, e r)),
)
