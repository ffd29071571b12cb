-- ===== src/TodoApp/System/Agreement.antt =====
-- In a reachable system the states that meet agree on every text and creator, so that replicas
-- converge: whoever has merged the same states has the same todos.
use nettverksprogrammering_p.Base.{
  ℕ, ◌≡◌, refl, sym, ◌∙◌, some, List, [], ◌∷◌, arith, In, first, next, All, Option-cases, unwrap_or,
  inl, inr,
}
use nettverksprogrammering_p.Std.HashMap
use nettverksprogrammering_p.Std.HashMap.{HashMap}
use nettverksprogrammering_p.Std.Text.{Text, text_key}
use nettverksprogrammering_p.CrdtCore.Clock.{ReplicaId}
use nettverksprogrammering_p.CrdtCore.Traits.Delivery.{
  merge_all, merge_all-converges, held_member, member_held,
}
use nettverksprogrammering_p.TodoApp.State.Shown.{HasCreators, todos_congr}
use nettverksprogrammering_p.TodoApp.State.{TodoState, merge, cvrdt, todos}
use nettverksprogrammering_p.TodoApp.State.Ids.{format_id-injective}
use nettverksprogrammering_p.TodoApp.State.Merge.{
  Same, Agrees, TodoState-IsConvergent, get-texts, get-creators,
}
use nettverksprogrammering_p.TodoApp.System.{wire, System, Reach}
use nettverksprogrammering_p.TodoApp.System.Invariant.{IsOwned}
use nettverksprogrammering_p.TodoApp.System.Sound.{Reach-IsSound}

-- What the first state that knows the id says.
first_of : (TodoState → HashMap Text Text) → List TodoState → Text → Text
first_of field [] id = []
first_of field (x ∷ xs) id = unwrap_or (HashMap.get (field x) id) (first_of field xs id)

first_of_lem :
    (field : TodoState → HashMap Text Text) (xs : List TodoState) (x : TodoState) (id t : Text)
    → ((y : TodoState) (u : Text) → In y xs → HashMap.get (field y) id ≡ some u → u ≡ t)
    → In x xs
    → HashMap.get (field x) id ≡ some t
    → first_of field xs id ≡ t
unfolding first_of
first_of_lem field [] x id t same m e = elim m [ ]
first_of_lem field (y ∷ ys) x id t same first e = rw e
first_of_lem field (y ∷ ys) x id t same (next m) e =
    elim (Option-cases (HashMap.get (field y) id)) [
      | inl unknown ↦ rw unknown (first_of_lem field ys x id t (λ z u n. same z u (next n)) m e)
      | inr (u, known) ↦ rw known (same y u first known)
    ]

module _ (peer_id : ℕ → Text) (distinct : (i j : ℕ) → peer_id i ≡ peer_id j → i ≡ j) where
  texts_agree :
      (f : ℕ → TodoState) (x y : TodoState) (id t u : Text)
      → IsOwned peer_id f x
      → IsOwned peer_id f y
      → HashMap.get x.texts id ≡ some t
      → HashMap.get y.texts id ≡ some u
      → t ≡ u
  texts_agree f x y id t u hx hy ex ey =
      let m = hx.made id t ex in
      let n = hy.made id u ey in
      let same : m.maker ≡ n.maker =
        distinct m.maker n.maker
          (format_id-injective (peer_id m.maker) (peer_id n.maker) m.number n.number
            (sym m.is_id ∙ n.is_id)).0 in
      let left : HashMap.get (f n.maker).texts id ≡ some t = rw same at m.has_text in
      cc (left, n.has_text)

  creators_agree :
      (f : ℕ → TodoState) (x y : TodoState) (id t u : Text)
      → IsOwned peer_id f x
      → IsOwned peer_id f y
      → HashMap.get x.creators id ≡ some t
      → HashMap.get y.creators id ≡ some u
      → t ≡ u
  creators_agree f x y id t u hx hy ex ey =
      let (i, n, is_left, t_is) = hx.created id t ex in
      let (j, k, is_right, u_is) = hy.created id u ey in
      t_is ∙ (format_id-injective (peer_id i) (peer_id j) n k (sym is_left ∙ is_right)).0 ∙ sym u_is

  -- States of a sound system agree on what the first of them says.
  states-Agree :
      (f : ℕ → TodoState) (xs : List TodoState) (x : TodoState)
      → ((y : TodoState) → In y xs → IsOwned peer_id f y)
      → In x xs
      → Agrees (first_of (λ s. s.texts) xs) (first_of (λ s. s.creators) xs) x
  states-Agree f xs x owned m = record {
    text = λ id t e. sym (
        first_of_lem (λ s. s.texts) xs x id t
          (λ y u n k. texts_agree f y x id u t (owned y n) (owned x m) k e) m e);
    creator = λ id t e. sym (
        first_of_lem (λ s. s.creators) xs x id t
          (λ y u n k. creators_agree f y x id u t (owned y n) (owned x m) k e) m e);
    counted = (owned x m).no_zeros;
  }

  pair-owned :
      (f : ℕ → TodoState) (a b x : TodoState)
      → IsOwned peer_id f a
      → IsOwned peer_id f b
      → In x (a ∷ b ∷ [])
      → IsOwned peer_id f x
  pair-owned f a b x ha hb first = ha
  pair-owned f a b x ha hb (next first) = hb
  pair-owned f a b x ha hb (next (next m)) = elim m [ ]

  -- Two replicas of a reachable system that exchange their states hold the same entries afterwards,
  -- if no two replicas have the same name.
  pub exchange_converges :
      (replica_id : ℕ → ReplicaId) (s : System)
      → Reach peer_id replica_id s
      → (i j : ℕ)
      → Same (merge (s.replica i) (wire (s.replica j))) (merge (s.replica j) (wire (s.replica i)))
  unfolding wire merge
  exchange_converges replica_id s r i j =
      let sound = Reach-IsSound peer_id distinct replica_id r in
      let a : TodoState = s.replica i in
      let b : TodoState = s.replica j in
      let agree = states-Agree s.replica (a ∷ b ∷ []) in
      let owned = λ (x : TodoState). pair-owned s.replica a b x (sound.owned i) (sound.owned j) in
      (TodoState-IsConvergent (first_of (λ x. x.texts) (a ∷ b ∷ []))
          (first_of (λ x. x.creators) (a ∷ b ∷ []))).merge_comm
        a b (agree a owned first) (agree b owned (next first))

Same-refl : (a : TodoState) → Same a a
Same-refl a = (λ id. refl, (λ id. refl, (λ id. refl, (λ id. refl, (λ id. refl, λ r. refl)))))

All-of :
    (P : TodoState → Type 0) (xs : List TodoState) → ((x : TodoState) → In x xs → P x) → All P xs
All-of P [] h = tt
All-of P (x ∷ xs) h = (h x first, All-of P xs (λ y m. h y (next m)))

module _ (peer_id : ℕ → Text) (distinct : (i j : ℕ) → peer_id i ≡ peer_id j → i ≡ j)
    (replica_id : ℕ → ReplicaId) (s : System) (r : Reach peer_id replica_id s) where
  started-owned :
      (i : ℕ) (x : TodoState) → In x (s.replica i ∷ s.sent) → IsOwned peer_id s.replica x
  started-owned i x first = (Reach-IsSound peer_id distinct replica_id r).owned i
  started-owned i x (next m) = (Reach-IsSound peer_id distinct replica_id r).sent_owned x m

  -- A replica of a reachable system that receives sent states reaches the same entries in whatever
  -- order they come and however often each comes, if no two replicas have the same name.
  pub deliveries_converge :
      (i : ℕ) (xs ys : List TodoState)
      → ((x : TodoState) → In x xs → In x s.sent)
      → ((x : TodoState) → In x xs → In x ys)
      → ((y : TodoState) → In y ys → In y xs)
      → Same (merge_all cvrdt (s.replica i) xs) (merge_all cvrdt (s.replica i) ys)
  deliveries_converge i xs ys sent to from =
      let start : TodoState = s.replica i in
      let agree = λ (x : TodoState).
        states-Agree peer_id distinct s.replica (start ∷ s.sent) x (started-owned i) in
      merge_all-converges
        (TodoState-IsConvergent (first_of (λ x. x.texts) (start ∷ s.sent))
          (first_of (λ x. x.creators) (start ∷ s.sent)))
        start xs ys (agree start first) (All-of _ xs (λ x m. agree x (next (sent x m))))
        (All-of _ ys (λ y m. agree y (next (sent y (from y m)))))
        (λ x h. let (y, m, e) = held_member x xs h in member_held x y ys (to y m) e)
        (λ x h. let (y, m, e) = held_member x ys h in member_held x y xs (from y m) e)

  pub merged-HasCreators : (i j : ℕ) → HasCreators (merge (s.replica i) (wire (s.replica j)))
  unfolding wire
  merged-HasCreators i j id =
      let sound = Reach-IsSound peer_id distinct replica_id r in
      ground (
        arith,
        get-texts (s.replica i) (wire (s.replica j)) id,
        get-creators (s.replica i) (wire (s.replica j)) id,
        (sound.owned i).credited id,
        (sound.owned j).credited id,
      )

  -- Two replicas of a reachable system that exchange their states show the same list of todos
  -- afterwards, if no two replicas have the same name.
  pub exchange_shows_alike :
      (i j : ℕ)
      → todos (merge (s.replica i) (wire (s.replica j)))
        ≡ todos (merge (s.replica j) (wire (s.replica i)))
  exchange_shows_alike i j =
      todos_congr (merge (s.replica i) (wire (s.replica j)))
        (merge (s.replica j) (wire (s.replica i)))
        (exchange_converges peer_id distinct replica_id s r i j) (merged-HasCreators i j)
