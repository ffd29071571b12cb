-- ===== src/CrdtCore/Traits.antt =====
-- crates/crdt-core/src/traits.rs: the trait `CvRDT`, and the laws that its name promises.
pub mod Order
pub mod Delivery
pub mod Quotient
pub mod Pointwise
pub mod Checks

pub record CvRdt {ℓ} (S : Type ℓ) : Type ℓ where
  pub merge : S → S → S

-- `Same` is the equality of the implementation, `==`. `Valid` are the states that may meet: all
-- of them, or those of replicas that agree on what the type does not merge.
pub record IsConvergent {ℓ} {S : Type ℓ} (Valid : S → Type ℓ) (Same : S → S → Type ℓ)
    (cvrdt : CvRdt S) : Type ℓ where
  pub same_refl : (a : S) → Same a a
  pub same_symm : (a b : S) → Same a b → Same b a
  pub same_trans : (a b c : S) → Same a b → Same b c → Same a c
  pub merge_congr : (a b c d : S) → Same a b → Same c d → Same (cvrdt.merge a c) (cvrdt.merge b d)
  pub merge_valid : (a b : S) → Valid a → Valid b → Valid (cvrdt.merge a b)
  pub merge_comm : (a b : S) → Valid a → Valid b → Same (cvrdt.merge a b) (cvrdt.merge b a)
  pub merge_assoc :
      (a b c : S) → Same (cvrdt.merge (cvrdt.merge a b) c) (cvrdt.merge a (cvrdt.merge b c))
  pub merge_idem : (a : S) → Same (cvrdt.merge a a) a
