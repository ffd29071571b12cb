-- ===== src/Std/HashMap.antt =====
-- `std::collections::HashMap`: the entries in the order in which the map iterates, each key once.
-- The hash decides that order alone; no law below depends on it.
pub mod Entries
pub mod Loop
pub mod Keys
pub mod Sum
pub mod Equality
use Entries
use nettverksprogrammering_p.Base.{
  ℕ, ◌≡◌, refl, ite, Bool, true, false, Option, none, some, List, [], ◌∷◌, map, arith, is_some,
  unwrap_or, length,
}
-- The bound `K: Eq + Hash`, as far as its equality.
pub use Entries.{HashKey, nat_key}

pub record HashMap {ℓ} (K V : Type ℓ) ⦃key : HashKey K⦄ : Type ℓ where
  pub entries : List (K × V)
  pub unique : Entries.IsUnique entries

module _ {ℓ} {K V : Type ℓ} ⦃key : HashKey K⦄ where
  -- HashMap::new, Default::default
  unfoldable pub new : HashMap K V
  new = record { entries = []; unique = tt }

  unfoldable pub get : HashMap K V → K → Option V
  get m k = Entries.lookup k m.entries

  unfoldable pub insert : HashMap K V → K → V → HashMap K V
  insert m k v = record {
    entries = Entries.put k v m.entries;
    unique = Entries.put-IsUnique k v m.entries m.unique;
  }

  unfoldable pub contains_key : HashMap K V → K → Bool
  contains_key m k = is_some (get m k)

  unfoldable pub len : HashMap K V → ℕ
  len m = length m.entries

  unfoldable pub is_empty : HashMap K V → Bool
  is_empty m = elim m.entries [ [] ↦ true | _ ↦ false ]

  unfoldable pub keys : HashMap K V → List K
  keys m = map (λ e. e.0) m.entries

  unfoldable pub values : HashMap K V → List V
  values m = map (λ e. e.1) m.entries

  pub get-new : (k : K) → get new k ≡ none
  unfolding get new Entries.lookup
  get-new k = refl

  pub get-insert :
      (m : HashMap K V) (k : K) (v : V) (j : K)
      → get (insert m k v) j ≡ ite (key.dec_eq k j) (some v) (get m j)
  unfolding get insert
  get-insert m k v j = Entries.lookup-put k v m.entries j
