-- ===== src/CrdtCore/Traits/Quotient.antt =====
-- The abstract state: a state up to the equality of the implementation, which forgets the order
-- in which a map iterates. On it the laws of `merge` are equations.
use mathlib.Core.Quot
use mathlib.Core.Quot.{Quot, Quot-set}
use nettverksprogrammering_p.Base.{◌≡◌}
use nettverksprogrammering_p.CrdtCore.Traits.{CvRdt, IsConvergent}

module _ {ℓ} {S : Type ℓ} {Same : S → S → Type ℓ} {cvrdt : CvRdt S}
    (laws : IsConvergent (λ _. Unit) Same cvrdt) where
  open cvrdt use {merge}

  abbrev pub Abstract : Type ℓ
  Abstract = Quot Same

  merge_into : S → Abstract → Abstract
  merge_into a =
      Quot.lift Quot-set (λ b. Quot.mk (merge a b))
        (λ b c h. Quot.sound (laws.merge_congr a a b c (laws.same_refl a) h))

  merge_into-congr : (a b : S) → Same a b → (y : Abstract) → merge_into a y ≡ merge_into b y
  unfolding merge_into
  merge_into-congr a b h =
      Quot.ind (λ y. Quot-set _ _) (λ c. Quot.sound (laws.merge_congr a b c c h (laws.same_refl c)))

  -- `merge` on abstract states
  pub join : Abstract → Abstract → Abstract
  unfolding merge_into
  join x y = Quot.lift Quot-set (λ a. merge_into a y) (λ a b h. merge_into-congr a b h y) x

  pub join_comm : (x y : Abstract) → join x y ≡ join y x
  unfolding join
  join_comm =
      Quot.ind (λ x. hlevel Quot-set)
        (λ a. Quot.ind (λ y. Quot-set _ _) (λ b. Quot.sound (laws.merge_comm a b tt tt)))

  pub join_assoc : (x y z : Abstract) → join (join x y) z ≡ join x (join y z)
  unfolding join
  join_assoc =
      Quot.ind (λ x. hlevel Quot-set)
        (λ a.
          Quot.ind (λ y. hlevel Quot-set)
            (λ b. Quot.ind (λ z. Quot-set _ _) (λ c. Quot.sound (laws.merge_assoc a b c))))

  pub join_idem : (x : Abstract) → join x x ≡ x
  unfolding join
  join_idem = Quot.ind (λ x. Quot-set _ _) (λ a. Quot.sound (laws.merge_idem a))
