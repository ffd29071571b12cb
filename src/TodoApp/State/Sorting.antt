-- ===== src/TodoApp/State/Sorting.antt =====
-- `sort_by` on the ids: it keeps the items, and puts distinct ids in strict order.
use Prim.Native.Nat.{Ordering}
use Prim.Native.Nat.Ordering.{lt, eq, gt}
use nettverksprogrammering_p.Base.{
  ◌≡◌, refl, sym, ap₂, ◌≢◌, ◌↔◌, ◌⊎◌, inl, inr, List, [], ◌∷◌, arith, In, first, next, In-cases,
}
use nettverksprogrammering_p.Std.Text.{cmp}
use nettverksprogrammering_p.Std.Text.Order.{◌≺◌, eq_of_cmp, lt_of_gt, lt_irrefl, lt_trans}
use nettverksprogrammering_p.TodoApp.Protocol.{TodoItem}
use nettverksprogrammering_p.TodoApp.State.{insert_item, sort_items}
use nettverksprogrammering_p.TodoApp.State.Snapshot.{HaveDistinctIds}

-- Each id comes before all that follow it.
abbrev pub IsSorted : List TodoItem → Type 0
IsSorted [] = Unit
IsSorted (a ∷ items) = ((b : TodoItem) → In b items → a.id ≺ b.id) × IsSorted items

gt-cases : (o : Ordering) → (o ≡ gt) ⊎ (o ≢ gt)
gt-cases lt = inr (λ e. cc)
gt-cases eq = inr (λ e. cc)
gt-cases gt = inl refl

insert_item-gt :
    (a b : TodoItem) (items : List TodoItem)
    → cmp a.id b.id ≡ gt
    → insert_item a (b ∷ items) ≡ b ∷ insert_item a items
unfolding insert_item
insert_item-gt a b items e = ground arith

insert_item-ne_gt :
    (a b : TodoItem) (items : List TodoItem)
    → cmp a.id b.id ≢ gt
    → insert_item a (b ∷ items) ≡ a ∷ b ∷ items
unfolding insert_item
insert_item-ne_gt a b items e = ground arith

inserted :
    (a x : TodoItem) (items : List TodoItem) → In x (insert_item a items) → (x ≡ a) ⊎ In x items
unfolding insert_item
inserted a x [] m = In-cases m
inserted a x (b ∷ items) m = elim (gt-cases (cmp a.id b.id)) [
  | inl after ↦ elim (In-cases (rw (insert_item-gt a b items after) at m)) [
    | inl p ↦ inr (rw p first)
    | inr n ↦ elim (inserted a x items n) [ inl p ↦ inl p | inr k ↦ inr (next k) ]
  ]
  | inr before ↦ In-cases (rw (insert_item-ne_gt a b items before) at m)
]

insert_new : (a : TodoItem) (items : List TodoItem) → In a (insert_item a items)
unfolding insert_item
insert_new a [] = first
insert_new a (b ∷ items) = elim (gt-cases (cmp a.id b.id)) [
  | inl after ↦ rw (insert_item-gt a b items after) (next (insert_new a items))
  | inr before ↦ rw (insert_item-ne_gt a b items before) first
]

insert_old : (a x : TodoItem) (items : List TodoItem) → In x items → In x (insert_item a items)
unfolding insert_item
insert_old a x [] m = elim m [ ]
insert_old a x (b ∷ items) m = elim (gt-cases (cmp a.id b.id)) [
  | inl after ↦ elim (In-cases m) [
    | inl p ↦ rw (insert_item-gt a b items after, p) first
    | inr n ↦ rw (insert_item-gt a b items after) (next (insert_old a x items n))
  ]
  | inr before ↦ rw (insert_item-ne_gt a b items before) (next m)
]

sorted_from : (x : TodoItem) (items : List TodoItem) → In x (sort_items items) → In x items
unfolding sort_items
sorted_from x [] m = elim m [ ]
sorted_from x (a ∷ items) m = elim (inserted a x (sort_items items) m) [
  | inl p ↦ rw p first
  | inr n ↦ next (sorted_from x items n)
]

sorted_to : (x : TodoItem) (items : List TodoItem) → In x items → In x (sort_items items)
unfolding sort_items
sorted_to x [] m = elim m [ ]
sorted_to x (a ∷ items) m = elim (In-cases m) [
  | inl p ↦ rw p (insert_new a (sort_items items))
  | inr n ↦ insert_old a x (sort_items items) (sorted_to x items n)
]

-- Sorting loses no item and makes none.
pub In-sort_items : (x : TodoItem) (items : List TodoItem) → In x (sort_items items) ↔ In x items
In-sort_items x items = (sorted_from x items, sorted_to x items)

before_of : (a b : TodoItem) → a.id ≢ b.id → cmp a.id b.id ≢ gt → a.id ≺ b.id
before_of a b ne h = ground (arith, eq_of_cmp a.id b.id)

insert_item-IsSorted :
    (a : TodoItem) (items : List TodoItem)
    → ((b : TodoItem) → In b items → a.id ≢ b.id)
    → IsSorted items
    → IsSorted (insert_item a items)
unfolding insert_item
insert_item-IsSorted a [] ne s = (λ b m. elim m [ ], tt)
insert_item-IsSorted a (b ∷ items) ne s = elim (gt-cases (cmp a.id b.id)) [
  | inl after ↦ rw (insert_item-gt a b items after) (
    λ x m. elim (inserted a x items m) [
      | inl p ↦ rw p (lt_of_gt a.id b.id after)
      | inr n ↦ s.0 x n
    ],
    insert_item-IsSorted a items (λ x m. ne x (next m)) s.1,
  )
  | inr before ↦
      let a_b : a.id ≺ b.id = before_of a b (ne b first) before in
      rw (insert_item-ne_gt a b items before) (
        λ x m. elim (In-cases m) [
          | inl p ↦ rw p a_b
          | inr n ↦ lt_trans a.id b.id x.id a_b (s.0 x n)
        ],
        s,
      )
]

-- Items with distinct ids come out in strict order.
pub sort_items-IsSorted :
    (items : List TodoItem) → HaveDistinctIds items → IsSorted (sort_items items)
unfolding sort_items
sort_items-IsSorted [] d = tt
sort_items-IsSorted (a ∷ items) d =
    insert_item-IsSorted a (sort_items items) (λ b m. d.0 b (sorted_from b items m))
      (sort_items-IsSorted items d.1)

head_eq :
    (a b : TodoItem) (xs ys : List TodoItem)
    → IsSorted (a ∷ xs)
    → IsSorted (b ∷ ys)
    → In a (b ∷ ys)
    → In b (a ∷ xs)
    → a ≡ b
head_eq a b xs ys s t m n = elim (In-cases m) [
  | inl p ↦ p
  | inr later ↦ elim (In-cases n) [
    | inl p ↦ sym p
    | inr after ↦ absurd (lt_irrefl a.id (lt_trans a.id b.id a.id (s.0 b after) (t.0 a later)))
  ]
]

In-tail : (a x : TodoItem) (ys : List TodoItem) → a.id ≺ x.id → In x (a ∷ ys) → In x ys
In-tail a x ys h m = elim (In-cases m) [ inl p ↦ absurd (lt_irrefl a.id (rw p at h)) | inr n ↦ n ]

-- Two strictly sorted lists with the same items are equal.
pub sorted_unique :
    (xs ys : List TodoItem)
    → IsSorted xs
    → IsSorted ys
    → ((x : TodoItem) → In x xs → In x ys)
    → ((y : TodoItem) → In y ys → In y xs)
    → xs ≡ ys
sorted_unique [] [] s t to from = refl
sorted_unique [] (b ∷ ys) s t to from = elim (from b first) [ ]
sorted_unique (a ∷ xs) [] s t to from = elim (to a first) [ ]
sorted_unique (a ∷ xs) (b ∷ ys) s t to from =
    let heads : a ≡ b = head_eq a b xs ys s t (to a first) (from b first) in
    let tails : xs ≡ ys =
      sorted_unique xs ys s.1 t.1 (λ x m. In-tail b x ys (rw heads at (s.0 x m)) (to x (next m)))
        (λ y m. In-tail a y xs (rw heads (t.0 y m)) (from y (next m))) in
    ap₂ ◌∷◌ heads tails
