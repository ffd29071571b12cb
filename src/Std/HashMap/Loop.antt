-- ===== src/Std/HashMap/Loop.antt =====
-- `for (k, v) in &map { body }`: a loop over the entries in the order of the map.
use nettverksprogrammering_p.Base.{◌≡◌, refl, ite, Option, none, some, List, [], ◌∷◌, arith, foldl}
use nettverksprogrammering_p.Std.HashMap.{HashMap, HashKey, get}
use nettverksprogrammering_p.Std.HashMap.Entries.{lookup, IsUnique}

abbrev pub for_entries {ℓ κ} :
    {K V : Type ℓ} ⦃key : HashKey K⦄ {S : Type κ} → HashMap K V → (K → V → S → S) → S → S
for_entries m body s = foldl (λ s e. body e.0 e.1 s) s m.entries

-- What one entry of the map that is read does to the value that stands under its key.
abbrev pub combine {ℓ} : {V W : Type ℓ} → (V → Option W → Option W) → Option V → Option W → Option W
combine g none o = o
combine g (some v) o = g v o

module _ {ℓ} {K V W : Type ℓ} ⦃key : HashKey K⦄ (body : K → V → HashMap K W → HashMap K W)
    (g : V → Option W → Option W)
    (step : (k : K) (v : V) (m : HashMap K W) (j : K)
      → get (body k v m) j ≡ ite (key.dec_eq k j) (g v (get m k)) (get m j)) where
  get-foldl :
      (es : List (K × V))
      → IsUnique es
      → (m : HashMap K W) (j : K)
      → get (foldl (λ s e. body e.0 e.1 s) m es) j ≡ combine g (lookup j es) (get m j)
  unfolding lookup
  get-foldl [] u m j = refl
  get-foldl (e ∷ es) u m j = ground (arith, get-foldl es u.1 (body e.0 e.1 m) j, step e.0 e.1 m j)

  -- A loop whose body writes under its own key alone acts on each key by that key's entry.
  pub get-for_entries :
      (n : HashMap K V) (m : HashMap K W) (j : K)
      → get (for_entries n body m) j ≡ combine g (get n j) (get m j)
  unfolding get
  get-for_entries n m j = get-foldl n.entries n.unique m j
