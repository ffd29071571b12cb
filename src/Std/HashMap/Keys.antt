-- ===== src/Std/HashMap/Keys.antt =====
-- The keys over which a map iterates are those that it holds, and its size is their number.
use nettverksprogrammering_p.Base.{
  ◌+◌, ◌≡◌, refl, Bool, true, false, ◌||◌, List, [], ◌∷◌, map, arith, if◌then◌else◌, is_some,
  length, In, first, next, ◌↔◌, ◌≢◌,
}
use nettverksprogrammering_p.Std.HashMap.{HashMap, HashKey, get, insert, keys, contains_key, len}
use nettverksprogrammering_p.Std.HashMap.Entries.{lookup, put, IsUnique}

module _ {ℓ} {A : Type ℓ} where
  abbrev pub any : (A → Bool) → List A → Bool
  any p [] = false
  any p (x ∷ xs) = p x || any p xs

  pub any-eq_false : (p : A → Bool) (xs : List A) → ((x : A) → p x ≡ false) → any p xs ≡ false
  any-eq_false p [] h = refl
  any-eq_false p (x ∷ xs) h = rw (h x) (any-eq_false p xs h)

module _ {ℓ} {K V : Type ℓ} ⦃key : HashKey K⦄ where
  lookup-any :
      (p : K → Bool) (es : List (K × V)) (k : K)
      → any p (map (λ e. e.0) es) ≡ false
      → is_some (lookup k es) ≡ true
      → p k ≡ false
  unfolding lookup
  lookup-any p [] k h c = cc
  lookup-any p (e ∷ es) k h c = ground (arith, lookup-any p es k)

  -- A test that fails at every key that is iterated over fails at every key that is held.
  pub any-keys :
      (p : K → Bool) (m : HashMap K V) (k : K)
      → any p (keys m) ≡ false
      → contains_key m k ≡ true
      → p k ≡ false
  unfolding keys contains_key get
  any-keys p m k h c = lookup-any p m.entries k h c

  length-put :
      (k : K) (v : V) (es : List (K × V))
      → length (put k v es) ≡ (if is_some (lookup k es) then length es else length es + 1)
  unfolding put lookup
  length-put k v [] = omega arith
  length-put k v (e ∷ es) = ground (arith, length-put k v es)

  pub len-insert :
      (m : HashMap K V) (k : K) (v : V)
      → len (insert m k v) ≡ (if contains_key m k then len m else len m + 1)
  unfolding len insert contains_key get
  len-insert m k v = length-put k v m.entries

-- No key comes twice.
abbrev pub AreDistinct {ℓ} : {K : Type ℓ} → List K → Type ℓ
AreDistinct {K} [] = Unit
AreDistinct {K} (k ∷ ks) = ((j : K) → In j ks → k ≢ j) × AreDistinct ks

module _ {ℓ} {K V : Type ℓ} ⦃key : HashKey K⦄ where
  In-of_lookup :
      (es : List (K × V)) (k : K) → is_some (lookup k es) ≡ true → In k (map (λ e. e.0) es)
  unfolding lookup
  In-of_lookup [] k h = cc
  In-of_lookup (e ∷ es) k h = elim (key.dec_eq e.0 k) [
    | yes p ↦ rw (← p) first
    | no p ↦ next (In-of_lookup es k (ground arith))
  ]

  lookup_of_In :
      (es : List (K × V)) (k : K) → In k (map (λ e. e.0) es) → is_some (lookup k es) ≡ true
  unfolding lookup
  lookup_of_In [] k m = elim m [ ]
  lookup_of_In (e ∷ es) k first = ground arith
  lookup_of_In (e ∷ es) k (next m) = ground (arith, lookup_of_In es k m)

  -- The keys that are iterated over are those that the map holds.
  pub In-keys : (m : HashMap K V) (k : K) → In k (keys m) ↔ (contains_key m k ≡ true)
  unfolding keys contains_key get
  In-keys m k = (lookup_of_In m.entries k, In-of_lookup m.entries k)

  distinct_keys : (es : List (K × V)) → IsUnique es → AreDistinct (map (λ e. e.0) es)
  distinct_keys [] u = tt
  distinct_keys (e ∷ es) u = (λ j m p. cc (lookup_of_In es e.0 (rw p m), u.0), distinct_keys es u.1)

  pub keys-AreDistinct : (m : HashMap K V) → AreDistinct (keys m)
  unfolding keys
  keys-AreDistinct m = distinct_keys m.entries m.unique
