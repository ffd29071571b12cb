-- ===== src/CrdtCore/Traits/Order.antt =====
-- The order of a convergent type, in which `merge` is the least upper bound.
use nettverksprogrammering_p.Base.{◌↔◌}
use nettverksprogrammering_p.CrdtCore.Traits.{CvRdt, IsConvergent}

module _ {ℓ} {S : Type ℓ} {Valid : S → Type ℓ} {Same : S → S → Type ℓ} {cvrdt : CvRdt S}
    (laws : IsConvergent Valid Same cvrdt) where
  open cvrdt use {merge}
  open laws use {same_refl, same_symm, same_trans, merge_congr, merge_comm, merge_assoc, merge_idem}

  -- To merge `a` into `b` changes nothing.
  abbrev pub Below : S → S → Type ℓ
  Below a b = Same (merge b a) b

  pub Below-refl : (a : S) → Below a a
  Below-refl = merge_idem

  pub Below-trans : (a b c : S) → Below a b → Below b c → Below a c
  Below-trans a b c h k =
      same_trans (merge c a) (merge (merge c b) a) c
        (merge_congr c (merge c b) a a (same_symm _ _ k) (same_refl a))
        (same_trans (merge (merge c b) a) (merge c (merge b a)) c (merge_assoc c b a) (
          same_trans (merge c (merge b a)) (merge c b) c
            (merge_congr c c (merge b a) b (same_refl c) h) k))

  pub Below-antisymm : (a b : S) → Valid a → Valid b → Below a b → Below b a → Same a b
  Below-antisymm a b va vb h k =
      same_trans a (merge a b) b (same_symm _ _ k)
        (same_trans (merge a b) (merge b a) b (merge_comm a b va vb) h)

  -- What is merged in lies below the result.
  pub Below-merge_right : (a b : S) → Below b (merge a b)
  Below-merge_right a b =
      same_trans (merge (merge a b) b) (merge a (merge b b)) (merge a b) (merge_assoc a b b)
        (merge_congr a a (merge b b) b (same_refl a) (merge_idem b))

  pub Below-congr : (a b c : S) → Below a b → Same b c → Below a c
  Below-congr a b c h e =
      same_trans (merge c a) (merge b a) c (merge_congr c b a a (same_symm _ _ e) (same_refl a))
        (same_trans (merge b a) b c h e)

  pub Below-merge_left : (a b : S) → Valid a → Valid b → Below a (merge a b)
  Below-merge_left a b va vb =
      Below-congr a (merge b a) (merge a b) (Below-merge_right b a) (merge_comm b a vb va)

  pub merge-Below : (a b z : S) → Below a z → Below b z → Below (merge a b) z
  merge-Below a b z h k =
      same_trans (merge z (merge a b)) (merge (merge z a) b) z (same_symm _ _ (merge_assoc z a b)) (
        same_trans (merge (merge z a) b) (merge z b) z
          (merge_congr (merge z a) z b b h (same_refl b)) k)

  -- A state is above `merge a b` exactly where it is above both, for valid `a` and `b`: the merge is
  -- their least upper bound.
  merge-least_upper_bound :
      (a b z : S) → Valid a → Valid b → Below (merge a b) z ↔ (Below a z × Below b z)
  merge-least_upper_bound a b z va vb = (
    λ h. (
      Below-trans a (merge a b) z (Below-merge_left a b va vb) h,
      Below-trans b (merge a b) z (Below-merge_right a b) h,
    ),
    λ h. merge-Below a b z h.0 h.1,
  )
