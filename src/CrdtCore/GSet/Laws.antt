-- ===== src/CrdtCore/GSet/Laws.antt =====
-- Membership, size and merge of the grow-only set.
use mathlib.Core.Bool.{not}
use nettverksprogrammering_p.Base.{
  ◌+◌, ◌≡◌, refl, ite, true, ◌||◌, Option, none, some, arith, ◌∙◌, if◌then◌else◌,
}
use nettverksprogrammering_p.Std.HashMap
use nettverksprogrammering_p.Std.HashMap.{HashKey, get-insert, contains_key, get-new}
use nettverksprogrammering_p.Std.HashMap.Keys.{len-insert}
use nettverksprogrammering_p.Std.HashMap.Loop.{get-for_entries, combine}
use nettverksprogrammering_p.Std.HashSet
use nettverksprogrammering_p.CrdtCore.Traits.{IsConvergent}
use nettverksprogrammering_p.CrdtCore.Traits.Pointwise.{pointwise}
use nettverksprogrammering_p.CrdtCore.GSet.{GSet, insert, contains, len, merge, cvrdt}

abbrev pub either {ℓ} : Option (Unit {ℓ}) → Option (Unit {ℓ}) → Option (Unit {ℓ})
either none o = o
either (some u) o = some tt

pub either_comm {ℓ} : (x y : Option (Unit {ℓ})) → either x y ≡ either y x
either_comm none none = refl
either_comm none (some v) = refl
either_comm (some u) none = refl
either_comm (some u) (some v) = refl

pub either_assoc {ℓ} : (x y z : Option (Unit {ℓ})) → either (either x y) z ≡ either x (either y z)
either_assoc none y z = refl
either_assoc (some u) y z = refl

pub either_idem {ℓ} : (x : Option (Unit {ℓ})) → either x x ≡ x
either_idem none = refl
either_idem (some u) = refl

combine-either {ℓ} :
    (x y : Option (Unit {ℓ})) → combine (λ (v : Unit {ℓ}) o. some tt) y x ≡ either x y
combine-either none none = refl
combine-either none (some v) = refl
combine-either (some u) none = refl
combine-either (some u) (some v) = refl

module _ {ℓ} {T : Type ℓ} ⦃key : HashKey T⦄ where
  -- The derived `==`: the same elements, in whatever order.
  abbrev pub Same : GSet T → GSet T → Type ℓ
  Same a b = (x : T) → HashMap.get a.elements x ≡ HashMap.get b.elements x

  -- An insertion says whether the element is new, adds it and no other, and counts it once.
  pub insert_lem :
      (s : GSet T) (x : T)
      → ((insert s x).1 ≡ not (contains s x))
        × ((y : T) → contains (insert s x).0 y ≡ (ite (key.dec_eq x y) true (contains s y)))
        × (len (insert s x).0 ≡ (if contains s x then len s else len s + 1))
  unfolding insert contains len HashSet.insert contains_key
  insert_lem s x =
      (refl, λ y. ground (arith, get-insert s.elements x tt y), len-insert s.elements x tt)

  pub get-merge :
      (a b : GSet T) (x : T)
      → HashMap.get (merge a b).elements x
        ≡ either (HashMap.get a.elements x) (HashMap.get b.elements x)
  unfolding merge HashSet.extend HashSet.insert
  get-merge a b x =
      get-for_entries (λ y u s. HashMap.insert s y tt) (λ v o. some tt)
        (λ y u s z. get-insert s y tt z) b.elements a.elements x
      ∙ combine-either (HashMap.get a.elements x) (HashMap.get b.elements x)

  -- The merge is the union.
  pub contains-merge :
      (a b : GSet T) (x : T) → contains (merge a b) x ≡ (contains a x || contains b x)
  unfolding contains contains_key
  contains-merge a b x = ground (arith, get-merge a b x)

  -- The merge of the grow-only set satisfies the laws of a convergent type, for all states and all
  -- types of elements.
  pub GSet-IsConvergent : IsConvergent (λ _. Unit) Same cvrdt
  GSet-IsConvergent =
      pointwise (λ _. Unit) (λ a x. HashMap.get a.elements x) cvrdt either get-merge (λ a b _ _. tt)
        (λ a b _ _ x. either_comm (HashMap.get a.elements x) (HashMap.get b.elements x))
        either_assoc either_idem
