-- ===== src/TodoApp/Cluster/Carries.antt =====
-- What is on its way on a connection: bytes that can be read, and that hold what was sent.
use nettverksprogrammering_p.Base.{
  ◌≡◌, refl, ◌⊎◌, inl, inr, some, List, [], ◌∷◌, ◌++◌, In, first, next, In-cases,
}
use nettverksprogrammering_p.Std.Text.{Text}
use nettverksprogrammering_p.CrdtSync.{Codec, hello, state}
use nettverksprogrammering_p.CrdtSync.Exchange.{IsFaithful, Reads, Reads-snoc, greeted, sent}
use nettverksprogrammering_p.TodoApp.State.{TodoState}
use nettverksprogrammering_p.TodoApp.System.{wire}

module _ (codec : Codec TodoState) where
  open codec use {Bytes}

  -- All that is on its way can be read, and each state of it was sent.
  pub record Carries (ss : List TodoState) (bs : List Bytes) : Type 0 where
    pub states : List TodoState
    pub reads : Reads codec bs states
    pub were_sent : (x : TodoState) → In x states → In x ss

module _ (codec : Codec TodoState) (faithful : IsFaithful codec wire) where
  open codec use {Bytes, serialize, deserialize}

  pub Carries-next :
      (ss : List TodoState) (s : TodoState) (bs : List Bytes)
      → Carries codec ss bs
      → Carries codec (s ∷ ss) bs
  Carries-next ss s bs h = record {
    states = h.states;
    reads = h.reads;
    were_sent = λ x m. next (h.were_sent x m);
  }

  In-snoc : (xs : List TodoState) (x y : TodoState) → In y (xs ++ x ∷ []) → (y ≡ x) ⊎ In y xs
  In-snoc [] x y m = In-cases m
  In-snoc (z ∷ xs) x y first = inr first
  In-snoc (z ∷ xs) x y (next m) = elim (In-snoc xs x y m) [ inl e ↦ inl e | inr k ↦ inr (next k) ]

  pub Carries-push :
      (ss : List TodoState) (s : TodoState) (bs : List Bytes) (b : Bytes)
      → serialize (state s) ≡ some b
      → Carries codec ss bs
      → Carries codec (wire s ∷ ss) (bs ++ b ∷ [])
  Carries-push ss s bs b e h = record {
    states = h.states ++ wire s ∷ [];
    reads = Reads-snoc codec b (wire s) (faithful.reads (state s) b e) h.reads;
    were_sent = λ x m. elim (In-snoc h.states (wire s) x m) [
      | inl same ↦ rw same first
      | inr k ↦ next (h.were_sent x k)
    ];
  }

  -- The first frame is a greeting, or a state that was sent.
  Reads-cases :
      (b : Bytes) (bs : List Bytes) (xs : List TodoState)
      → Reads codec (b ∷ bs) xs
      → ((name : Text) × (deserialize b ≡ some (hello name)) × Reads codec bs xs)
        ⊎ ((x : TodoState) × (ys : List TodoState) × (deserialize b ≡ some (state x))
            × Reads codec bs ys
            × (xs ≡ x ∷ ys))
  Reads-cases b bs xs (greeted name e r) = inl (name, e, r)
  Reads-cases b bs _ (sent {x} {xs} e r) = inr (x, xs, e, r, refl)

  pub Carries-greet :
      (ss : List TodoState) (b : Bytes) (bs : List Bytes) (name : Text)
      → deserialize b ≡ some (hello name)
      → Carries codec ss (b ∷ bs)
      → Carries codec ss bs
  Carries-greet ss b bs name e h = elim (Reads-cases b bs h.states h.reads) [
    | inl (other, f, r) ↦ record { states = h.states; reads = r; were_sent = h.were_sent }
    | inr (x, ys, f, r, same) ↦ cc
  ]

  pub Carries-deliver :
      (ss : List TodoState) (b : Bytes) (bs : List Bytes) (x : TodoState)
      → deserialize b ≡ some (state x)
      → Carries codec ss (b ∷ bs)
      → In x ss × Carries codec ss bs
  Carries-deliver ss b bs x e h = elim (Reads-cases b bs h.states h.reads) [
    | inl (name, f, r) ↦ cc
    | inr (y, ys, f, r, same) ↦
        let is_y : x ≡ y = cc in
        (
          h.were_sent x (rw (same, is_y) first),
          record { states = ys; reads = r; were_sent = λ z m. h.were_sent z (rw same (next m)) },
        )
  ]
