-- ===== src/CrdtCore/Traits/Pointwise.antt =====
-- A type whose state is seen through a table, and whose merge joins the tables place by place.
use nettverksprogrammering_p.Base.{◌≡◌, refl, sym, ap₂, ◌∙◌}
use nettverksprogrammering_p.CrdtCore.Traits.{CvRdt, IsConvergent}

module _ {ℓ} {S K W : Type ℓ} (Valid : S → Type ℓ) (view : S → K → W) (cvrdt : CvRdt S)
    (join : W → W → W)
    (view-merge : (a b : S) (j : K) → view (cvrdt.merge a b) j ≡ join (view a j) (view b j))
    (merge_valid : (a b : S) → Valid a → Valid b → Valid (cvrdt.merge a b))
    (join_comm : (a b : S)
      → Valid a
      → Valid b
      → (j : K) → join (view a j) (view b j) ≡ join (view b j) (view a j))
    (join_assoc : (x y z : W) → join (join x y) z ≡ join x (join y z))
    (join_idem : (x : W) → join x x ≡ x) where
  open cvrdt use {merge}

  assoc : (a b c : S) (j : K) → view (merge (merge a b) c) j ≡ view (merge a (merge b c)) j
  assoc a b c j = simp (view-merge, join_assoc)

  pub pointwise : IsConvergent Valid (λ a b. (j : K) → view a j ≡ view b j) cvrdt
  pointwise = record {
    same_refl = λ a j. refl;
    same_symm = λ a b h j. sym (h j);
    same_trans = λ a b c h k j. h j ∙ k j;
    merge_congr = λ a b c d h k j. view-merge a c j ∙ ap₂ join (h j) (k j) ∙ sym (view-merge b d j);
    merge_valid = merge_valid;
    merge_comm = λ a b va vb j. view-merge a b j ∙ join_comm a b va vb j ∙ sym (view-merge b a j);
    merge_assoc = assoc;
    merge_idem = λ a j. view-merge a a j ∙ join_idem (view a j);
  }

-- A state that is compared in two ways converges in both.
pub both {ℓ} :
    {S : Type ℓ} {Valid : S → Type ℓ} {Same Alike : S → S → Type ℓ} {cvrdt : CvRdt S}
    → IsConvergent Valid Same cvrdt
    → IsConvergent Valid Alike cvrdt
    → IsConvergent Valid (λ a b. Same a b × Alike a b) cvrdt
both h k = record {
  same_refl = λ a. (h.same_refl a, k.same_refl a);
  same_symm = λ a b e. (h.same_symm a b e.0, k.same_symm a b e.1);
  same_trans = λ a b c e f. (h.same_trans a b c e.0 f.0, k.same_trans a b c e.1 f.1);
  merge_congr = λ a b c d e f. (h.merge_congr a b c d e.0 f.0, k.merge_congr a b c d e.1 f.1);
  merge_valid = h.merge_valid;
  merge_comm = λ a b v w. (h.merge_comm a b v w, k.merge_comm a b v w);
  merge_assoc = λ a b c. (h.merge_assoc a b c, k.merge_assoc a b c);
  merge_idem = λ a. (h.merge_idem a, k.merge_idem a);
}
