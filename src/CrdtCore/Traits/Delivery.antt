-- ===== src/CrdtCore/Traits/Delivery.antt =====
-- Receiving states one after the other: the order, the repetitions and the grouping of the
-- deliveries leave no trace.
use nettverksprogrammering_p.Base.{List, [], ◌∷◌, foldl, All, In, first, next}
use nettverksprogrammering_p.CrdtCore.Traits.{CvRdt, IsConvergent}
use nettverksprogrammering_p.CrdtCore.Traits.Order.{
  Below, Below-refl, Below-trans, Below-antisymm, Below-merge_right, Below-merge_left, merge-Below,
}

-- The state of a replica after the states `xs` came in.
unfoldable pub merge_all {ℓ} : {S : Type ℓ} (cvrdt : CvRdt S) → S → List S → S
merge_all cvrdt = foldl cvrdt.merge

-- One of the states is `x`, in the equality of the implementation.
pub data Holds {ℓ} {S : Type ℓ} (Same : S → S → Type ℓ) (x : S) : List S → Type ℓ where
  here : {y : S} {ys : List S} → Same x y → Holds Same x (y ∷ ys)
  there : {y : S} {ys : List S} → Holds Same x ys → Holds Same x (y ∷ ys)

module _ {ℓ} {S : Type ℓ} {Same : S → S → Type ℓ} where
  pub held_member : (x : S) (xs : List S) → Holds Same x xs → (y : S) × In y xs × Same x y
  held_member x [] h = elim h [ ]
  held_member x (y ∷ ys) (here e) = (y, first, e)
  held_member x (y ∷ ys) (there h) = let (z, m, e) = held_member x ys h in (z, next m, e)

  pub member_held : (x y : S) (xs : List S) → In y xs → Same x y → Holds Same x xs
  member_held x y (z ∷ zs) first e = here e
  member_held x y (z ∷ zs) (next m) e = there (member_held x y zs m e)
  member_held x y [] m e = elim m [ ]

  pub Holds-mono :
      (x : S) (xs ys : List S) → ((y : S) → In y xs → In y ys) → Holds Same x xs → Holds Same x ys
  Holds-mono x xs ys into h = let (y, m, e) = held_member x xs h in member_held x y ys (into y m) e

module _ {ℓ} {S : Type ℓ} {Valid : S → Type ℓ} {Same : S → S → Type ℓ} {cvrdt : CvRdt S}
    (laws : IsConvergent Valid Same cvrdt) where
  open cvrdt use {merge}

  merge_all-Valid : (s : S) (xs : List S) → Valid s → All Valid xs → Valid (merge_all cvrdt s xs)
  unfolding merge_all
  merge_all-Valid s [] v vs = v
  merge_all-Valid s (x ∷ xs) v vs =
      merge_all-Valid (merge s x) xs (laws.merge_valid s x v vs.0) vs.1

  start-Below : (s : S) (xs : List S) → Valid s → All Valid xs → Below laws s (merge_all cvrdt s xs)
  unfolding merge_all
  start-Below s [] v vs = Below-refl laws s
  start-Below s (x ∷ xs) v vs =
      Below-trans laws s (merge s x) (merge_all cvrdt (merge s x) xs)
        (Below-merge_left laws s x v vs.0)
        (start-Below (merge s x) xs (laws.merge_valid s x v vs.0) vs.1)

  pub delivered-Below :
      (s : S) (xs : List S) (x : S)
      → Valid s
      → All Valid xs
      → Holds Same x xs
      → Below laws x (merge_all cvrdt s xs)
  unfolding merge_all
  delivered-Below s [] x v vs h = elim h [ ]
  delivered-Below s (y ∷ ys) x v vs (here e) =
      Below-trans laws x (merge s y) (merge_all cvrdt (merge s y) ys)
        (laws.same_trans (merge (merge s y) x) (merge (merge s y) y) (merge s y)
          (laws.merge_congr (merge s y) (merge s y) x y (laws.same_refl _) e)
          (Below-merge_right laws s y))
        (start-Below (merge s y) ys (laws.merge_valid s y v vs.0) vs.1)
  delivered-Below s (y ∷ ys) x v vs (there h) =
      delivered-Below (merge s y) ys x (laws.merge_valid s y v vs.0) vs.1 h

  merge_all-Below :
      (s : S) (xs : List S) (z : S)
      → Below laws s z
      → ((x : S) → Holds Same x xs → Below laws x z)
      → Below laws (merge_all cvrdt s xs) z
  unfolding merge_all
  merge_all-Below s [] z h below = h
  merge_all-Below s (x ∷ xs) z h below =
      merge_all-Below (merge s x) xs z
        (merge-Below laws s x z h (below x (here (laws.same_refl x)))) (λ y m. below y (there m))

  -- Two replicas that start alike and receive the same states end in the same state, in whatever
  -- order and however often each of the states comes in.
  pub merge_all-converges :
      (s : S) (xs ys : List S)
      → Valid s
      → All Valid xs
      → All Valid ys
      → ((x : S) → Holds Same x xs → Holds Same x ys)
      → ((y : S) → Holds Same y ys → Holds Same y xs)
      → Same (merge_all cvrdt s xs) (merge_all cvrdt s ys)
  merge_all-converges s xs ys v vx vy to from =
      Below-antisymm laws _ _ (merge_all-Valid s xs v vx) (merge_all-Valid s ys v vy)
        (merge_all-Below s xs _ (start-Below s ys v vy)
          (λ x m. delivered-Below s ys x v vy (to x m)))
        (merge_all-Below s ys _ (start-Below s xs v vx)
          (λ y m. delivered-Below s xs y v vx (from y m)))

  -- A round of anti-entropy: replicas that each receive the states of all of them, their own
  -- included, end in the same state, whichever state each of them started from.
  round_converges :
      (s t : S) (xs : List S)
      → Valid s
      → Valid t
      → All Valid xs
      → Holds Same s xs
      → Holds Same t xs
      → Same (merge_all cvrdt s xs) (merge_all cvrdt t xs)
  round_converges s t xs v w vs hs ht =
      Below-antisymm laws _ _ (merge_all-Valid s xs v vs) (merge_all-Valid t xs w vs)
        (merge_all-Below s xs _ (delivered-Below t xs s w vs hs)
          (λ x m. delivered-Below t xs x w vs m))
        (merge_all-Below t xs _ (delivered-Below s xs t v vs ht)
          (λ x m. delivered-Below s xs x v vs m))
