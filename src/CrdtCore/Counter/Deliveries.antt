-- ===== src/CrdtCore/Counter/Deliveries.antt =====
-- A counter that many replicas increment: each builds its own state, and the states are delivered.
use nettverksprogrammering_p.Base.{
  ℕ, ◌+◌, ◌<◌, ◌≡◌, ◌≢◌, refl, max, ite, some, List, [], ◌∷◌, map, All, In, arith, sum, ℕ_discrete,
  ap, sym, ◌∙◌,
}
use nettverksprogrammering_p.Std.HashMap
use nettverksprogrammering_p.Std.HashMap.{nat_key, get-insert, get-new}
use nettverksprogrammering_p.Std.HashMap.Sum.{
  total, amount, total-insert, total-le, total_congr, total-new,
}
use nettverksprogrammering_p.Std.Word.{Profile, u64_size}
use nettverksprogrammering_p.CrdtCore.Clock.{ReplicaId}
use nettverksprogrammering_p.CrdtCore.Counter.{
  GCounter, new, value, merge, build_from, build, cvrdt,
}
use nettverksprogrammering_p.CrdtCore.Counter.Merge.{get-merge, GCounter-IsConvergent}
use nettverksprogrammering_p.CrdtCore.Counter.Value.{increment_fits, value_fits}
use nettverksprogrammering_p.CrdtCore.Traits.Delivery.{merge_all, merge_all-converges, Holds-mono}

-- The increments of one replica.
abbrev pub own : ReplicaId → List ℕ → List (ReplicaId × ℕ)
own r ns = map (λ n. (r, n)) ns

-- What all replicas have counted.
abbrev pub counted : List (ReplicaId × List ℕ) → ℕ
counted [] = 0
counted ((r, ns) ∷ parts) = sum ns + counted parts

-- Different replicas, each of which has built its state by its own increments.
abbrev pub AreBuilt : Profile → List (ReplicaId × List ℕ) → List GCounter → Type 0
AreBuilt p [] [] = Unit
AreBuilt p [] (x ∷ xs) = ⊥
AreBuilt p (part ∷ parts) [] = ⊥
AreBuilt p ((r, ns) ∷ parts) (x ∷ xs) =
    (build p (own r ns) ≡ some x)
    × All (λ (q : ReplicaId × List ℕ). q.0 ≢ r) parts
    × AreBuilt p parts xs

-- A state in which only `r` has counted.
abbrev Counts : GCounter → ReplicaId → ℕ → Type 0
Counts x r n = (j : ReplicaId) → amount x.counts j ≡ ite (ℕ_discrete r j) n 0

own-amount :
    (p : Profile) (c : GCounter) (r : ReplicaId) (ns : List ℕ)
    → amount c.counts r + sum ns < u64_size
    → (x : GCounter) × (build_from p c (own r ns) ≡ some x)
      × ((j : ReplicaId) → amount x.counts j ≡ amount c.counts j + ite (ℕ_discrete r j) (sum ns) 0)
unfolding build_from
own-amount p c r [] h = (c, refl, λ j. ground arith)
own-amount p c r (n ∷ ns) h =
    let (d, returns, _, at_d) = increment_fits p c r n (omega arith) in
    let (x, built, at_x) = own-amount p d r ns (ground (arith, at_d r)) in
    (x, rw returns built, λ j. ground (arith, at_x j, at_d j))

built-Counts :
    (p : Profile) (r : ReplicaId) (ns : List ℕ) (x : GCounter)
    → sum ns < u64_size
    → build p (own r ns) ≡ some x
    → Counts x r (sum ns)
unfolding new
built-Counts p r ns x h e j =
    let (y, built, at_y) = own-amount p new r ns (ground (arith, get-new {V = ℕ} r)) in
    let same : y ≡ x = cc (built, e) in rw (← same) (ground (arith, at_y j, get-new {V = ℕ} j))

amount-merge :
    (a b : GCounter) (j : ReplicaId)
    → amount (merge a b).counts j ≡ max (amount a.counts j) (amount b.counts j)
amount-merge a b j = ground (arith, get-merge a b j)

-- A replica that is not known yet adds what it has counted.
total-merge_new :
    (s x : GCounter) (r : ReplicaId) (n : ℕ)
    → amount s.counts r ≡ 0
    → Counts x r n
    → total (merge s x).counts ≡ total s.counts + n
total-merge_new s x r n none at_x =
    let inserted = HashMap.insert s.counts r n in
    let below =
      total-le (merge s x).counts inserted
        (λ j. ground (arith, amount-merge s x j, at_x j, get-insert s.counts r n j)) in
    let above =
      total-le inserted (merge s x).counts
        (λ j. ground (arith, amount-merge s x j, at_x j, get-insert s.counts r n j)) in
    omega (arith, below, above, total-insert s.counts r n)

-- The replicas that have not counted in `s` yet.
abbrev AreNew : GCounter → List (ReplicaId × List ℕ) → Type 0
AreNew s parts = All (λ (q : ReplicaId × List ℕ). amount s.counts q.0 ≡ 0) parts

merge-AreNew :
    (s x : GCounter) (r : ReplicaId) (n : ℕ) (parts : List (ReplicaId × List ℕ))
    → Counts x r n
    → All (λ (q : ReplicaId × List ℕ). q.0 ≢ r) parts
    → AreNew s parts
    → AreNew (merge s x) parts
merge-AreNew s x r n [] at_x others h = tt
merge-AreNew s x r n (q ∷ parts) at_x others h =
    let other : r ≢ q.0 = λ same. others.0 (sym same) in
    (
      ground (arith, amount-merge s x q.0, at_x q.0, other, h.0),
      merge-AreNew s x r n parts at_x others.1 h.1,
    )

total-merge_all :
    (p : Profile) (s : GCounter) (parts : List (ReplicaId × List ℕ)) (xs : List GCounter)
    → AreBuilt p parts xs
    → AreNew s parts
    → counted parts < u64_size
    → total (merge_all cvrdt s xs).counts ≡ total s.counts + counted parts
unfolding merge_all
total-merge_all p s [] [] h fresh fits = omega arith
total-merge_all p s [] (x ∷ xs) h fresh fits = absurd h
total-merge_all p s (part ∷ parts) [] h fresh fits = absurd h
total-merge_all p s ((r, ns) ∷ parts) (x ∷ xs) (built, others, rest) fresh fits =
    let at_x = built-Counts p r ns x (omega arith) built in
    let later =
      total-merge_all p (merge s x) parts xs rest
        (merge-AreNew s x r (sum ns) parts at_x others fresh.1) (omega arith) in
    omega (arith, later, total-merge_new s x r (sum ns) fresh.0 at_x)

new-AreNew : (parts : List (ReplicaId × List ℕ)) → AreNew new parts
unfolding new
new-AreNew [] = tt
new-AreNew (q ∷ parts) = (ground (arith, get-new {V = ℕ} q.0), new-AreNew parts)

new-total : total new.counts ≡ 0
unfolding new
new-total = total-new ReplicaId

All-tt : (xs : List GCounter) → All (λ _. Unit {0}) xs
All-tt [] = tt
All-tt (x ∷ xs) = (tt, All-tt xs)

-- Different replicas each build a counter by increments of their own, and all increments sum to less
-- than 2^64. Wherever the states of all of them are delivered to a new counter, in any order and any
-- of them more than once, its value is the sum of all increments, each counted once, in either
-- profile.
pub deliveries-value :
    (p : Profile) (parts : List (ReplicaId × List ℕ)) (xs ys : List GCounter)
    → AreBuilt p parts xs
    → counted parts < u64_size
    → ((x : GCounter) → In x xs → In x ys)
    → ((y : GCounter) → In y ys → In y xs)
    → value p (merge_all cvrdt new ys) ≡ some (counted parts)
deliveries-value p parts xs ys built fits to from =
    let once = total-merge_all p new parts xs built (new-AreNew parts) fits in
    let alike =
      merge_all-converges GCounter-IsConvergent new ys xs tt (All-tt ys) (All-tt xs)
        (λ x h. Holds-mono x ys xs from h) (λ x h. Holds-mono x xs ys to h) in
    let all : total (merge_all cvrdt new ys).counts ≡ counted parts =
      total_congr (merge_all cvrdt new ys).counts (merge_all cvrdt new xs).counts alike
      ∙ omega (arith, once, new-total) in
    rw (value_fits p (merge_all cvrdt new ys) (rw all fits)) (ap some all)
