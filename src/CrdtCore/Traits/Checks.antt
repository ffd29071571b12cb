-- ===== src/CrdtCore/Traits/Checks.antt =====
-- What the property tests of the types in crates/crdt-core/src have in common: each builds states and
-- compares merges of them by `==`.
use nettverksprogrammering_p.Base.{◌≡◌, ◌↔◌, Bool, true}
use nettverksprogrammering_p.CrdtCore.Traits.{CvRdt, IsConvergent}

module _ {ℓ} {S : Type ℓ} (cvrdt : CvRdt S) (equals : S → S → Bool) where
  open cvrdt use {merge}

  abbrev pub commutes : S → S → Bool
  commutes a b = equals (merge a b) (merge b a)

  abbrev pub associates : S → S → S → Bool
  associates a b c = equals (merge (merge a b) c) (merge a (merge b c))

  abbrev pub absorbs_itself : S → Bool
  absorbs_itself a = equals (merge a a) a

-- The tests pass at valid states of a convergent type whose `==` decides the equality.
pub checks_hold {ℓ} :
    {S : Type ℓ} {Valid : S → Type ℓ} {Same : S → S → Type ℓ} {cvrdt : CvRdt S}
    (laws : IsConvergent Valid Same cvrdt) (equals : S → S → Bool)
    → ((a b : S) → (equals a b ≡ true) ↔ Same a b)
    → (a b c : S) → Valid a
    → Valid b
    → (commutes cvrdt equals a b ≡ true)
      × (associates cvrdt equals a b c ≡ true)
      × (absorbs_itself cvrdt equals a ≡ true)
checks_hold laws equals decides a b c va vb = (
  (decides _ _).1 (laws.merge_comm a b va vb),
  (decides _ _).1 (laws.merge_assoc a b c),
  (decides _ _).1 (laws.merge_idem a),
)
