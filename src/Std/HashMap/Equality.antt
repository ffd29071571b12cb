-- ===== src/Std/HashMap/Equality.antt =====
-- `PartialEq` of maps: as many entries, and each of the one map is in the other.
use nettverksprogrammering_p.Base.{
  suc, ◌≤◌, ◌≡◌, ◌≢◌, refl, sym, ◌↔◌, Bool, true, false, ◌&&◌, Option, none, some, List, [], ◌∷◌,
  arith, ◌==◌, is_some, length, Option-cases, inl, inr,
}
use nettverksprogrammering_p.Std.HashMap.{HashMap, HashKey, get, len}
use nettverksprogrammering_p.Std.HashMap.Entries.{
  lookup, erase, lookup-erase, erase-IsUnique, IsUnique,
}

-- `other.get(key).map_or(false, |v| *value == *v)`
abbrev pub agrees {ℓ} : {V : Type ℓ} → (V → V → Bool) → V → Option V → Bool
agrees beq v none = false
agrees beq v (some w) = beq v w

agrees_iff {ℓ} :
    {V : Type ℓ} (beq : V → V → Bool) (decides : (v w : V) → (beq v w ≡ true) ↔ (v ≡ w)) (v : V)
    (o : Option V)
    → (agrees beq v o ≡ true) ↔ (o ≡ some v)
agrees_iff beq decides v none = (λ h. cc, λ h. cc)
agrees_iff beq decides v (some w) = (λ h. cc ((decides v w).0 h), λ h. (decides v w).1 (cc))

module _ {ℓ} {K V : Type ℓ} ⦃key : HashKey K⦄ where
  unfoldable pub all_agree : (V → V → Bool) → List (K × V) → HashMap K V → Bool
  all_agree beq [] n = true
  all_agree beq (e ∷ es) n = agrees beq e.1 (get n e.0) && all_agree beq es n

  unfoldable pub eq : (V → V → Bool) → HashMap K V → HashMap K V → Bool
  unfolding all_agree
  eq beq m n = len m == len n && all_agree beq m.entries n

  length-erase :
      (k : K) (es : List (K × V))
      → is_some (lookup k es) ≡ true
      → suc (length (erase k es)) ≡ length es
  unfolding erase lookup
  length-erase k [] h = cc
  length-erase k (e ∷ es) h = ground (arith, length-erase k es)

  -- A map with fewer keys has fewer entries.
  length_mono :
      (es fs : List (K × V))
      → IsUnique es
      → IsUnique fs
      → ((k : K) → is_some (lookup k es) ≡ true → is_some (lookup k fs) ≡ true)
      → length es ≤ length fs
  unfolding lookup
  length_mono [] fs u w h = omega arith
  length_mono (e ∷ es) fs u w h = ground (
    arith,
    h e.0,
    length-erase e.0 fs,
    length_mono es (erase e.0 fs) u.1 (erase-IsUnique e.0 fs w)
        (λ k. ground (arith, h k, lookup-erase e.0 fs k w)),
  )

  module _ (beq : V → V → Bool) (decides : (v w : V) → (beq v w ≡ true) ↔ (v ≡ w)) where
    all_agree-lookup :
        (es : List (K × V)) (n : HashMap K V) (k : K) (v : V)
        → all_agree beq es n ≡ true
        → lookup k es ≡ some v
        → get n k ≡ some v
    unfolding all_agree lookup
    all_agree-lookup [] n k v h e = cc
    all_agree-lookup (x ∷ es) n k v h e = elim (key.dec_eq x.0 k) [
      | yes p ↦ rw (← p) ((agrees_iff beq decides v (get n x.0)).0 (ground arith))
      | no p ↦ all_agree-lookup es n k v (ground arith) (ground arith)
    ]

    lookup-all_agree :
        (es : List (K × V)) (n : HashMap K V)
        → IsUnique es
        → ((k : K) (v : V) → lookup k es ≡ some v → get n k ≡ some v)
        → all_agree beq es n ≡ true
    unfolding all_agree lookup
    lookup-all_agree [] n u h = refl
    lookup-all_agree (x ∷ es) n u h = ground (
      arith,
      (agrees_iff beq decides x.1 (get n x.0)).1 (h x.0 x.1 (ground arith)),
      lookup-all_agree es n u.1 (λ k v e. h k v (ground arith)),
    )

    all_agree-contains :
        (m n : HashMap K V) (k : K)
        → all_agree beq m.entries n ≡ true
        → is_some (lookup k m.entries) ≡ true
        → is_some (get n k) ≡ true
    all_agree-contains m n k h c = elim (Option-cases (lookup k m.entries)) [
      | inl absent ↦ cc
      | inr (v, e) ↦ rw (all_agree-lookup m.entries n k v h e) refl
    ]

    -- Of two maps with as many entries neither has a key alone.
    no_more :
        (m n : HashMap K V) (k : K) (w : V)
        → all_agree beq m.entries n ≡ true
        → length m.entries ≡ length n.entries
        → lookup k m.entries ≡ none
        → lookup k n.entries ≢ some w
    unfolding get lookup
    no_more m n k w h lens absent e =
        let longer =
          length_mono ((k, w) ∷ m.entries) n.entries (absent, m.unique) n.unique
            (λ j c. ground (arith, all_agree-contains m n j h)) in
        omega (arith, longer)

    eq-get : (m n : HashMap K V) → eq beq m n ≡ true → (k : K) → get m k ≡ get n k
    unfolding eq get len
    eq-get m n h k =
        let lens : length m.entries ≡ length n.entries = ground arith in
        let agree : all_agree beq m.entries n ≡ true = ground arith in
        elim (Option-cases (lookup k m.entries)) [
          | inr (v, e) ↦ rw e (sym (all_agree-lookup m.entries n k v agree e))
          | inl absent ↦ elim (Option-cases (lookup k n.entries)) [
            | inl missing ↦ rw (absent, missing)
            | inr (w, e) ↦ absurd (no_more m n k w agree lens absent e)
          ]
        ]

    -- Maps are equal exactly where they have the same value under each key, in whatever order they
    -- iterate.
    pub eq_iff : (m n : HashMap K V) → (eq beq m n ≡ true) ↔ ((k : K) → get m k ≡ get n k)
    unfolding eq get len
    eq_iff m n = (
      eq-get m n,
      λ h. ground (
        arith,
        length_mono m.entries n.entries m.unique n.unique (λ k e. ground (arith, h k)),
        length_mono n.entries m.entries n.unique m.unique (λ k e. ground (arith, h k)),
        lookup-all_agree m.entries n m.unique (λ k v e. ground (arith, h k)),
      ),
    )
