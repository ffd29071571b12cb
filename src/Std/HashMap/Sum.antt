-- ===== src/Std/HashMap/Sum.antt =====
-- The sum of the values of a map, which does not depend on the order of the entries.
use nettverksprogrammering_p.Base.{
  ℕ, ◌+◌, ◌≤◌, ◌≡◌, refl, List, [], ◌∷◌, map, arith, unwrap_or, sum,
}
use nettverksprogrammering_p.Std.HashMap.{HashMap, HashKey, get, insert, values, new}
use nettverksprogrammering_p.Std.HashMap.Entries.{
  lookup, put, erase, lookup-erase, erase-IsUnique, IsUnique,
}

module _ {K : Type 0} ⦃key : HashKey K⦄ where
  abbrev total_of : List (K × ℕ) → ℕ
  total_of es = sum (map (λ e. e.1) es)

  abbrev pub total : HashMap K ℕ → ℕ
  total m = sum (values m)

  -- what stands under a key, 0 where nothing does
  abbrev pub amount : HashMap K ℕ → K → ℕ
  amount m k = unwrap_or (get m k) 0

  total_of-erase :
      (k : K) (es : List (K × ℕ)) → total_of (erase k es) + unwrap_or (lookup k es) 0 ≡ total_of es
  unfolding erase lookup
  total_of-erase k [] = refl
  total_of-erase k (e ∷ es) = ground (arith, total_of-erase k es)

  total_of-put :
      (k : K) (v : ℕ) (es : List (K × ℕ))
      → total_of (put k v es) + unwrap_or (lookup k es) 0 ≡ total_of es + v
  unfolding put lookup
  total_of-put k v [] = omega arith
  total_of-put k v (e ∷ es) = ground (arith, total_of-put k v es)

  total_of-le :
      (es fs : List (K × ℕ))
      → IsUnique es
      → IsUnique fs
      → ((k : K) → unwrap_or (lookup k es) 0 ≤ unwrap_or (lookup k fs) 0)
      → total_of es ≤ total_of fs
  unfolding lookup
  total_of-le [] fs u w h = omega arith
  total_of-le (e ∷ es) fs u w h = ground (
    arith,
    total_of-erase e.0 fs,
    h e.0,
    total_of-le es (erase e.0 fs) u.1 (erase-IsUnique e.0 fs w)
        (λ k. ground (arith, h k, lookup-erase e.0 fs k w)),
  )

  pub total-insert :
      (m : HashMap K ℕ) (k : K) (v : ℕ) → total (insert m k v) + amount m k ≡ total m + v
  unfolding insert get values
  total-insert m k v = total_of-put k v m.entries

  pub total-le : (m n : HashMap K ℕ) → ((k : K) → amount m k ≤ amount n k) → total m ≤ total n
  unfolding get values
  total-le m n h = total_of-le m.entries n.entries m.unique n.unique h

  pub total_congr : (m n : HashMap K ℕ) → ((k : K) → get m k ≡ get n k) → total m ≡ total n
  total_congr m n h =
      omega
        (arith, total-le m n (λ k. ground (arith, h k)), total-le n m (λ k. ground (arith, h k)))

  pub amount-le-total : (m : HashMap K ℕ) (k : K) → amount m k ≤ total m
  unfolding get values
  amount-le-total m k = omega (arith, total_of-erase k m.entries)

pub total-new : (K : Type 0) ⦃key : HashKey K⦄ → total (new {K = K} {V = ℕ}) ≡ 0
unfolding new values
total-new K = refl
