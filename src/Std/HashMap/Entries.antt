-- ===== src/Std/HashMap/Entries.antt =====
-- Entry lists with each key once.
use nettverksprogrammering_p.Base.{
  ℕ, ◌≡◌, refl, ite, Option, none, some, List, [], ◌∷◌, arith, ℕ_discrete,
}

pub record HashKey {ℓ} (K : Type ℓ) : Type ℓ where
  pub dec_eq : Discrete K

instance abbrev pub nat_key : HashKey ℕ
nat_key = record { dec_eq = ℕ_discrete }

module _ {ℓ} {K V : Type ℓ} ⦃key : HashKey K⦄ where
  unfoldable pub lookup : K → List (K × V) → Option V
  lookup k [] = none
  lookup k (e ∷ es) = ite (key.dec_eq e.0 k) (some e.1) (lookup k es)

  -- The value of a key that is there is replaced where it stands.
  unfoldable pub put : K → V → List (K × V) → List (K × V)
  put k v [] = (k, v) ∷ []
  put k v (e ∷ es) = ite (key.dec_eq e.0 k) ((k, v) ∷ es) (e ∷ put k v es)

  abbrev pub IsUnique : List (K × V) → Type ℓ
  IsUnique [] = Unit
  IsUnique (e ∷ es) = (lookup e.0 es ≡ none) × IsUnique es

  pub lookup-put :
      (k : K) (v : V) (es : List (K × V)) (j : K)
      → lookup j (put k v es) ≡ ite (key.dec_eq k j) (some v) (lookup j es)
  unfolding lookup put
  lookup-put k v [] j = refl
  lookup-put k v (e ∷ es) j = ground (arith, lookup-put k v es j)

  pub put-IsUnique : (k : K) (v : V) (es : List (K × V)) → IsUnique es → IsUnique (put k v es)
  unfolding put lookup
  put-IsUnique k v [] u = (refl, tt)
  put-IsUnique k v (e ∷ es) u = ground (arith, put-IsUnique k v es, lookup-put k v es e.0)

  -- the entries without that of a key
  unfoldable pub erase : K → List (K × V) → List (K × V)
  erase k [] = []
  erase k (e ∷ es) = ite (key.dec_eq e.0 k) es (e ∷ erase k es)

  pub lookup-erase :
      (k : K) (es : List (K × V)) (j : K)
      → IsUnique es
      → lookup j (erase k es) ≡ ite (key.dec_eq k j) none (lookup j es)
  unfolding erase lookup
  lookup-erase k [] j u = ground arith
  lookup-erase k (e ∷ es) j u = ground (arith, lookup-erase k es j u.1)

  pub erase-IsUnique : (k : K) (es : List (K × V)) → IsUnique es → IsUnique (erase k es)
  unfolding erase
  erase-IsUnique k [] u = tt
  erase-IsUnique k (e ∷ es) u = ground (arith, erase-IsUnique k es u.1, lookup-erase k es e.0 u.1)
