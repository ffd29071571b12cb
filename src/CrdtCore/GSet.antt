-- ===== src/CrdtCore/GSet.antt =====
-- crates/crdt-core/src/g_set.rs: the grow-only set, for any type of elements.
pub mod Laws
pub mod Tests
use nettverksprogrammering_p.Base.{ℕ, Bool, true, List, [], ◌∷◌}
use nettverksprogrammering_p.Std.HashMap
use nettverksprogrammering_p.Std.HashMap.{HashKey}
use nettverksprogrammering_p.Std.HashMap.Equality.{eq}
use nettverksprogrammering_p.Std.HashSet
use nettverksprogrammering_p.Std.HashSet.{HashSet}
use nettverksprogrammering_p.CrdtCore.Traits.{CvRdt}

pub record GSet {ℓ} (T : Type ℓ) ⦃key : HashKey T⦄ : Type ℓ where
  pub elements : HashSet T

module _ {ℓ} {T : Type ℓ} ⦃key : HashKey T⦄ where
  -- The derived `==`.
  unfoldable pub equals : GSet T → GSet T → Bool
  equals self other = eq (λ _ _. true) self.elements other.elements

  unfoldable pub new : GSet T
  new = record { elements = HashSet.new }

  unfoldable pub insert : GSet T → T → GSet T × Bool
  insert self value =
      let (elements, added) = HashSet.insert self.elements value in
      (record { elements = elements }, added)

  unfoldable pub contains : GSet T → T → Bool
  contains self value = HashSet.contains self.elements value

  unfoldable pub len : GSet T → ℕ
  len self = HashMap.len self.elements

  unfoldable pub is_empty : GSet T → Bool
  is_empty self = HashMap.is_empty self.elements

  unfoldable pub iter : GSet T → List T
  iter self = HashSet.iter self.elements

  unfoldable pub merge : GSet T → GSet T → GSet T
  merge self other = record { elements = HashSet.extend self.elements other.elements }

  instance abbrev pub cvrdt : CvRdt (GSet T)
  cvrdt = record { merge = merge }

  -- The helper of the tests.
  unfoldable pub build_from : GSet T → List T → GSet T
  build_from s [] = s
  build_from s (v ∷ ops) = build_from (insert s v).0 ops

  abbrev pub build : List T → GSet T
  build ops = build_from new ops
