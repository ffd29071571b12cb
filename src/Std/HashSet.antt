-- ===== src/Std/HashSet.antt =====
-- `std::collections::HashSet`, which is a map to the unit type.
use mathlib.Core.Bool.{not}
use nettverksprogrammering_p.Base.{Bool, List}
use nettverksprogrammering_p.Std.HashMap
use nettverksprogrammering_p.Std.HashMap.{HashMap, HashKey}
use nettverksprogrammering_p.Std.HashMap.Loop.{for_entries}

module _ {ℓ} where
  abbrev pub HashSet : (T : Type ℓ) ⦃key : HashKey T⦄ → Type ℓ
  HashSet T = HashMap T (Unit {ℓ})

module _ {ℓ} {T : Type ℓ} ⦃key : HashKey T⦄ where
  abbrev pub new : HashSet T
  new = HashMap.new

  abbrev pub contains : HashSet T → T → Bool
  contains s x = HashMap.contains_key s x

  -- The flag says whether the value was not there before.
  unfoldable pub insert : HashSet T → T → HashSet T × Bool
  insert s x = (HashMap.insert s x tt, not (contains s x))

  -- `extend`, from the elements of another set
  unfoldable pub extend : HashSet T → HashSet T → HashSet T
  unfolding insert
  extend s other = for_entries other (λ x _ acc. (insert acc x).0) s

  abbrev pub iter : HashSet T → List T
  iter s = HashMap.keys s
