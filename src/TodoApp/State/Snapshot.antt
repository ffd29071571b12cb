-- ===== src/TodoApp/State/Snapshot.antt =====
-- The items that `snapshot` collects, before they are sorted.
use nettverksprogrammering_p.Base.{
  ◌≡◌, sym, ◌∙◌, ap, ◌≢◌, inl, inr, none, some, List, [], ◌∷◌, arith, In, first, next, Option-cases,
  In-cases,
}
use nettverksprogrammering_p.Std.HashMap.Keys.{AreDistinct}
use nettverksprogrammering_p.Std.Text.{Text, text_key}
use nettverksprogrammering_p.TodoApp.Protocol.{TodoItem}
use nettverksprogrammering_p.TodoApp.State.{TodoState, todo_item, collect_items}

todo_item-id :
    (s : TodoState) (id : Text) (item : TodoItem) → todo_item s id ≡ some item → item.id ≡ id
unfolding todo_item
todo_item-id s id item h = ground arith

module _ (s : TodoState) where
  collect-none :
      (id : Text) (ids : List Text)
      → todo_item s id ≡ none
      → collect_items s (id ∷ ids) ≡ collect_items s ids
  unfolding collect_items
  collect-none id ids e = ground arith

  collect-some :
      (id : Text) (ids : List Text) (item : TodoItem)
      → todo_item s id ≡ some item
      → collect_items s (id ∷ ids) ≡ item ∷ collect_items s ids
  unfolding collect_items
  collect-some id ids item e = ground arith

  pub collected :
      (ids : List Text) (item : TodoItem)
      → In item (collect_items s ids)
      → In item.id ids × (todo_item s item.id ≡ some item)
  unfolding collect_items
  collected [] item m = elim m [ ]
  collected (id ∷ ids) item m = elim (Option-cases (todo_item s id)) [
    | inl e ↦
        let (n, is_item) = collected ids item (rw (collect-none id ids e) at m) in (next n, is_item)
    | inr (a, e) ↦ elim (In-cases (rw (collect-some id ids a e) at m)) [
      | inl p ↦
          let q : item.id ≡ id = ap (λ (x : TodoItem). x.id) p ∙ todo_item-id s id a e in
          (rw q first, ap (todo_item s) q ∙ e ∙ ap some (sym p))
      | inr n ↦ let (k, is_item) = collected ids item n in (next k, is_item)
    ]
  ]

  pub collect :
      (ids : List Text) (id : Text) (item : TodoItem)
      → In id ids
      → todo_item s id ≡ some item
      → In item (collect_items s ids)
  unfolding collect_items
  collect [] id item m e = elim m [ ]
  collect (id ∷ ids) id' item first e = rw (collect-some id ids item e) first
  collect (j ∷ ids) id item (next m) e = elim (Option-cases (todo_item s j)) [
    | inl f ↦ rw (collect-none j ids f) (collect ids id item m e)
    | inr (a, f) ↦ rw (collect-some j ids a f) (next (collect ids id item m e))
  ]

-- No two items have the same id.
abbrev pub HaveDistinctIds : List TodoItem → Type 0
HaveDistinctIds [] = Unit
HaveDistinctIds (a ∷ items) = ((b : TodoItem) → In b items → a.id ≢ b.id) × HaveDistinctIds items

pub collected-HaveDistinctIds :
    (s : TodoState) (ids : List Text) → AreDistinct ids → HaveDistinctIds (collect_items s ids)
unfolding collect_items
collected-HaveDistinctIds s [] d = tt
collected-HaveDistinctIds s (id ∷ ids) d = elim (Option-cases (todo_item s id)) [
  | inl e ↦ rw (collect-none s id ids e) (collected-HaveDistinctIds s ids d.1)
  | inr (a, e) ↦ rw (collect-some s id ids a e) (
    λ b m p. d.0 b.id (collected s ids b m).0 (sym (todo_item-id s id a e) ∙ p),
    collected-HaveDistinctIds s ids d.1,
  )
]
