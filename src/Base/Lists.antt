-- ===== src/Base/Lists.antt =====
-- List functions over the native numbers.
use Prim.Native.Nat.{ℕ, suc, ◌+◌}
use mathlib.Core.Path.{◌≡◌, refl, ap}
use mathlib.Core.Logic.{◌⊎◌, inl, inr}
use mathlib.Core.List.{List, [], ◌∷◌, ◌++◌, map}

module _ {ℓ} {A : Type ℓ} where
  abbrev pub length : List A → ℕ
  length [] = 0
  length (x ∷ xs) = suc (length xs)

  abbrev pub All {κ} : (A → Type κ) → List A → Type κ
  All P [] = Unit
  All P (x ∷ xs) = P x × All P xs

abbrev pub sum : List ℕ → ℕ
sum [] = 0
sum (x ∷ xs) = x + sum xs

-- where a value stands in a list
pub data In {ℓ} {A : Type ℓ} (x : A) : List A → Type ℓ where
  first : {xs : List A} → In x (x ∷ xs)
  next : {y : A} {xs : List A} → In x xs → In x (y ∷ xs)

pub In-cases {ℓ} : {A : Type ℓ} {x y : A} {xs : List A} → In x (y ∷ xs) → (x ≡ y) ⊎ In x xs
In-cases first = inl refl
In-cases (next m) = inr m

pub length-map {ℓ κ} :
    {A : Type ℓ} {B : Type κ} (f : A → B) (xs : List A) → length (map f xs) ≡ length xs
length-map f [] = refl
length-map f (x ∷ xs) = ap suc (length-map f xs)

module _ {ℓ} {A : Type ℓ} where
  pub In-append_left : {x : A} (ys : List A) {xs : List A} → In x xs → In x (xs ++ ys)
  In-append_left ys first = first
  In-append_left ys (next m) = next (In-append_left ys m)

  pub In-middle : (before after : List A) (x : A) → In x (before ++ x ∷ after)
  In-middle [] after x = first
  In-middle (y ∷ before) after x = next (In-middle before after x)

  -- What stands in a list with one value more.
  pub In-insert :
      (before after : List A) (x y : A) → In y (before ++ after) → In y (before ++ x ∷ after)
  In-insert [] after x y m = next m
  In-insert (z ∷ before) after x y first = first
  In-insert (z ∷ before) after x y (next m) = next (In-insert before after x y m)

  -- A value of the list is the one in the middle or one of the others.
  pub In-split :
      (before after : List A) (x y : A)
      → In y (before ++ x ∷ after)
      → (y ≡ x) ⊎ In y (before ++ after)
  In-split [] after x y m = In-cases m
  In-split (z ∷ before) after x y first = inr first
  In-split (z ∷ before) after x y (next m) = elim (In-split before after x y m) [
    | inl e ↦ inl e
    | inr k ↦ inr (next k)
  ]

  pub In-position :
      {x : A} {xs : List A} → In x xs → (before after : List A) × (xs ≡ before ++ x ∷ after)
  In-position {xs = []} m = elim m [ ]
  In-position {xs = x ∷ xs} first = ([], xs, refl)
  In-position {xs = y ∷ xs} (next m) =
      let (before, after, e) = In-position m in (y ∷ before, after, ap (◌∷◌ y) e)
