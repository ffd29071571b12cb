-- ===== src/TodoApp/System/Sound.antt =====
-- Each step of the system keeps it sound.
use nettverksprogrammering_p.Base.{
  ℕ, ◌+◌, ◌≤◌, ◌≡◌, refl, ◌∙◌, ap, sym, Option, none, some, List, ◌∷◌, arith, ite, In, first, next,
  or_else, ◌⊎◌, inl, inr,
}
use nettverksprogrammering_p.Std.HashMap
use nettverksprogrammering_p.Std.HashMap.{HashMap, get-insert, get-new}
use nettverksprogrammering_p.Std.Text.{Text, text_key, text_discrete}
use nettverksprogrammering_p.CrdtCore.Clock.{ReplicaId}
use nettverksprogrammering_p.CrdtCore.VectorClock.Merge.{HasNoZeros, new-HasNoZeros}
use nettverksprogrammering_p.TodoApp.State.{TodoState, new, format_id, merge}
use nettverksprogrammering_p.TodoApp.State.Effects.{
  MadeNone, MadeOne, apply_effect, apply-HasNoZeros,
}
use nettverksprogrammering_p.TodoApp.State.Ids.{format_id-injective}
use nettverksprogrammering_p.TodoApp.State.Merge.{get-texts, get-creators, merge-HasNoZeros}
use nettverksprogrammering_p.TodoApp.State.Shown.{HasCreators}
use nettverksprogrammering_p.TodoApp.System.{
  wire, update, System, Step, act, push, receive, init, Reach, start, later,
}
use nettverksprogrammering_p.TodoApp.System.Invariant.{
  Grows, Grows-update, update_self, Made, IsOwned, IsSound, IsOwned_mono, keep,
}

module _ (peer_id : ℕ → Text) where
  -- An operation that made no todo.
  none-IsSound :
      (s : System) (i : ℕ) (r : TodoState)
      → IsSound peer_id s
      → HasNoZeros r.clock
      → MadeNone (s.replica i) r
      → IsSound peer_id (record s { replica = update s.replica i r })
  none-IsSound s i r h z m =
      let grows : Grows (s.replica i) r = record {
        texts = λ id t e. rw m.same_texts e;
        count = rw m.same_count (omega arith);
      } in
      let old =
        IsOwned_mono peer_id s.replica (update s.replica i r) (Grows-update s.replica i r grows)
          (s.replica i) (h.owned i) in
      keep peer_id s i r h grows (m.same_peer ∙ h.named i) (record {
        made = λ id t e. old.made id t (rw m.same_texts at e);
        created = λ id c e. old.created id c (rw m.same_creators at e);
        credited = λ id. rw (m.same_texts, m.same_creators) ((h.owned i).credited id);
        no_zeros = z;
      })

  -- The next id of a replica is new to it.
  next_id-new :
      ((i j : ℕ) → peer_id i ≡ peer_id j → i ≡ j)
      → (s : System) (i : ℕ) (id t : Text) → IsSound peer_id s
      → HashMap.get (s.replica i).texts id ≡ some t
      → format_id (s.replica i).peer_id ((s.replica i).next_local_id + 1) ≡ id
      → ⊥
  next_id-new distinct s i id t h e p =
      let m = (h.owned i).made id t e in
      let (names, numbers) =
        format_id-injective (s.replica i).peer_id (peer_id m.maker) _ m.number (p ∙ m.is_id) in
      let same : i ≡ m.maker = distinct i m.maker (sym (h.named i) ∙ names) in
      let bound : m.number ≤ (s.replica i).next_local_id = rw same m.counted in omega arith

  module _ (distinct : (i j : ℕ) → peer_id i ≡ peer_id j → i ≡ j) (s : System) (i : ℕ)
      (r : TodoState) (h : IsSound peer_id s) (z : HasNoZeros r.clock)
      (m : MadeOne (s.replica i) r) where
    abbrev new_id : Text
    new_id = format_id (s.replica i).peer_id ((s.replica i).next_local_id + 1)

    texts_at :
        (id : Text)
        → HashMap.get r.texts id
          ≡ ite (text_discrete new_id id) (some m.title) (HashMap.get (s.replica i).texts id)
    texts_at id = rw m.new_text (get-insert (s.replica i).texts new_id m.title id)

    creators_at :
        (id : Text)
        → HashMap.get r.creators id
          ≡ ite
              (text_discrete new_id id)
              (some (s.replica i).peer_id)
              (HashMap.get (s.replica i).creators id)
    creators_at id =
        rw m.new_creator (get-insert (s.replica i).creators new_id (s.replica i).peer_id id)

    one-Grows : Grows (s.replica i) r
    one-Grows = record {
      texts = λ id t e. ground (arith, texts_at id, next_id-new distinct s i id t h e);
      count = rw m.next_count (omega arith);
    }

    old : IsOwned peer_id (update s.replica i r) (s.replica i)
    old =
        IsOwned_mono peer_id s.replica (update s.replica i r) (Grows-update s.replica i r one-Grows)
          (s.replica i) (h.owned i)

    is_new :
        (id : Text) → new_id ≡ id → id ≡ format_id (peer_id i) ((s.replica i).next_local_id + 1)
    is_new id p = sym p ∙ ap (λ n. format_id n ((s.replica i).next_local_id + 1)) (h.named i)

    one-Made :
        (id t : Text) → HashMap.get r.texts id ≡ some t → Made peer_id (update s.replica i r) id t
    one-Made id t e = elim (text_discrete new_id id) [
      | yes p ↦ record {
        maker = i;
        number = (s.replica i).next_local_id + 1;
        is_id = is_new id p;
        counted = rw (update_self s.replica i r, m.next_count) (omega arith);
        has_text = rw (update_self s.replica i r) e;
      }
      | no p ↦ old.made id t (ground (arith, texts_at id))
    ]

    one-created :
        (id c : Text)
        → HashMap.get r.creators id ≡ some c
        → (j : ℕ) × (n : ℕ) × (id ≡ format_id (peer_id j) n) × (c ≡ peer_id j)
    one-created id c e = elim (text_discrete new_id id) [
      | yes p ↦
          let named : (s.replica i).peer_id ≡ peer_id i = h.named i in
          (i, (s.replica i).next_local_id + 1, is_new id p, ground (arith, creators_at id))
      | no p ↦ old.created id c (ground (arith, creators_at id))
    ]

    one-credited : HasCreators r
    one-credited id = ground (arith, texts_at id, creators_at id, (h.owned i).credited id)

    one-IsSound : IsSound peer_id (record s { replica = update s.replica i r })
    one-IsSound =
        keep peer_id s i r h one-Grows (m.same_peer ∙ h.named i)
          (record { made = one-Made; created = one-created; credited = one-credited; no_zeros = z })

  or_else-cases :
      (x y : Option Text) (t : Text) → or_else x y ≡ some t → (x ≡ some t) ⊎ (y ≡ some t)
  or_else-cases none y t e = inr e
  or_else-cases (some x) y t e = inl e

  -- What comes in was sent by a replica.
  receive-IsSound :
      (s : System) (i : ℕ) (x : TodoState)
      → IsSound peer_id s
      → IsOwned peer_id s.replica x
      → IsSound peer_id (record s { replica = update s.replica i (merge (s.replica i) x) })
  receive-IsSound s i x h own =
      let r : TodoState = merge (s.replica i) x in
      let grows : Grows (s.replica i) r = record {
        texts = λ id t e. rw (get-texts (s.replica i) x id, e);
        count = unfold merge in omega arith;
      } in
      let mono =
        IsOwned_mono peer_id s.replica (update s.replica i r) (Grows-update s.replica i r grows) in
      keep peer_id s i r h grows (unfold merge in h.named i) (record {
        made = λ id t e.
            elim (or_else-cases (HashMap.get (s.replica i).texts id) (HashMap.get x.texts id) t
              (rw (get-texts (s.replica i) x id) at e)) [
                | inl here ↦ (mono (s.replica i) (h.owned i)).made id t here
                | inr there ↦ (mono x own).made id t there
              ];
        created = λ id c e.
            elim (or_else-cases (HashMap.get (s.replica i).creators id) (HashMap.get x.creators id)
              c (rw (get-creators (s.replica i) x id) at e)) [
                | inl here ↦ (mono (s.replica i) (h.owned i)).created id c here
                | inr there ↦ (mono x own).created id c there
              ];
        credited = λ id. ground (
          arith,
          get-texts (s.replica i) x id,
          get-creators (s.replica i) x id,
          (h.owned i).credited id,
          own.credited id,
        );
        no_zeros = merge-HasNoZeros (s.replica i) x (h.owned i).no_zeros own.no_zeros;
      })

  wire-IsOwned :
      (f : ℕ → TodoState) (x : TodoState) → IsOwned peer_id f x → IsOwned peer_id f (wire x)
  unfolding wire
  wire-IsOwned f x h = record {
    made = h.made;
    created = h.created;
    credited = h.credited;
    no_zeros = h.no_zeros;
  }

  sent-push :
      (f : ℕ → TodoState) (y x : TodoState) (xs : List TodoState)
      → IsOwned peer_id f y
      → ((z : TodoState) → In z xs → IsOwned peer_id f z)
      → In x (y ∷ xs)
      → IsOwned peer_id f x
  sent-push f y x xs own owned first = own
  sent-push f y x xs own owned (next m) = owned x m

  Step-IsSound :
      ((i j : ℕ) → peer_id i ≡ peer_id j → i ≡ j)
      → {s t : System} → IsSound peer_id s
      → Step s t
      → IsSound peer_id t
  Step-IsSound distinct {s} h (act i msg {r} e) =
      let clock = apply-HasNoZeros (s.replica i) r msg e (h.owned i).no_zeros in
      elim (apply_effect (s.replica i) r msg e) [
        | inl m ↦ none-IsSound s i r h clock m
        | inr m ↦ one-IsSound distinct s i r h clock m
      ]
  Step-IsSound distinct {s} h (push i) = record {
    named = h.named;
    owned = h.owned;
    sent_owned = λ x m.
        sent-push s.replica (wire (s.replica i)) x s.sent
          (wire-IsOwned s.replica (s.replica i) (h.owned i)) h.sent_owned m;
  }
  Step-IsSound distinct {s} h (receive i {x} m) = receive-IsSound s i x h (h.sent_owned x m)

  init-IsSound : (replica_id : ℕ → ReplicaId) → IsSound peer_id (init peer_id replica_id)
  unfolding new
  init-IsSound replica_id = record {
    named = λ i. refl;
    owned = λ i. record {
      made = λ id t e. cc (get-new {V = Text} id);
      created = λ id c e. cc (get-new {V = Text} id);
      credited = λ id e. ground (arith, get-new {V = Text} id);
      no_zeros = new-HasNoZeros;
    };
    sent_owned = λ x m. elim m [ ];
  }

  -- Where no two replicas have the same name, every reachable system is sound.
  pub Reach-IsSound :
      ((i j : ℕ) → peer_id i ≡ peer_id j → i ≡ j)
      → (replica_id : ℕ → ReplicaId) {s : System} → Reach peer_id replica_id s
      → IsSound peer_id s
  Reach-IsSound distinct replica_id start = init-IsSound replica_id
  Reach-IsSound distinct replica_id (later r st) =
      Step-IsSound distinct (Reach-IsSound distinct replica_id r) st
