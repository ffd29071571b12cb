-- ===== src/TodoApp/System/Fresh.antt =====
-- The next id of a replica is new to every state of the system.
use nettverksprogrammering_p.Base.{
  ℕ, ◌≤◌, ◌≡◌, none, List, ◌∷◌, In, first, next, arith, ite, ℕ_discrete, Option-cases, inl, inr,
  sym, ◌∙◌,
}
use nettverksprogrammering_p.Std.HashMap
use nettverksprogrammering_p.Std.Text.{Text, text_key}
use nettverksprogrammering_p.CrdtCore.Clock.{ReplicaId}
use nettverksprogrammering_p.TodoApp.State.{TodoState}
use nettverksprogrammering_p.TodoApp.State.Apply.{next_id}
use nettverksprogrammering_p.TodoApp.State.Ids.{format_id-injective}
use nettverksprogrammering_p.TodoApp.State.Tidy.{
  HasNoTrace, IsTidy, new-IsTidy, merge-IsTidy, apply-IsTidy,
}
use nettverksprogrammering_p.TodoApp.System.{
  wire, update, System, act, push, receive, Reach, start, later,
}
use nettverksprogrammering_p.TodoApp.System.Invariant.{IsOwned, IsSound}

-- A predicate that holds of all replicas and of what one of them becomes.
pub update_all :
    {A : Type 0} (P : A → Type 0) (f : ℕ → A) (i : ℕ) (r : A)
    → ((k : ℕ) → P (f k))
    → P r
    → (k : ℕ) → P (update f i r k)
update_all P f i r h own k = elim (ℕ_discrete i k) as (λ d. P (ite d r (f k))) [
  | yes p ↦ own
  | no p ↦ h k
]

pub In-all :
    (P : TodoState → Type 0) (s : TodoState) (ss : List TodoState)
    → P s
    → ((x : TodoState) → In x ss → P x)
    → (x : TodoState) → In x (s ∷ ss)
    → P x
In-all P s ss own h x first = own
In-all P s ss own h x (next m) = h x m

pub record AreTidy (s : System) : Type 0 where
  pub replica : (k : ℕ) → IsTidy (s.replica k)
  pub sent : (x : TodoState) → In x s.sent → IsTidy x

wire-IsTidy : (x : TodoState) → IsTidy x → IsTidy (wire x)
unfolding wire
wire-IsTidy x h id e =
    let k = h id e in
    record {
      text = k.text;
      added = k.added;
      removed = k.removed;
      completed = k.completed;
      creator = k.creator;
    }

module _ (peer_id : ℕ → Text) (replica_id : ℕ → ReplicaId) where
  pub Reach-AreTidy : {s : System} → Reach peer_id replica_id s → AreTidy s
  Reach-AreTidy start = record {
    replica = λ k. new-IsTidy (peer_id k) (replica_id k);
    sent = λ x m. elim m [ ];
  }
  Reach-AreTidy (later {s} r (act i msg {r = next_state} e)) =
      let h = Reach-AreTidy r in
      record {
        replica =
            update_all IsTidy s.replica i next_state h.replica
              (apply-IsTidy (s.replica i) next_state msg e (h.replica i));
        sent = h.sent;
      }
  Reach-AreTidy (later {s} r (push i)) =
      let h = Reach-AreTidy r in
      record {
        replica = h.replica;
        sent =
            In-all IsTidy (wire (s.replica i)) s.sent (wire-IsTidy (s.replica i) (h.replica i))
              h.sent;
      }
  Reach-AreTidy (later {s} r (receive i {x} m)) =
      let h = Reach-AreTidy r in
      record {
        replica =
            update_all IsTidy s.replica i _ h.replica
              (merge-IsTidy (s.replica i) x (h.replica i) (h.sent x m));
        sent = h.sent;
      }

module _ (peer_id : ℕ → Text) (distinct : (i j : ℕ) → peer_id i ≡ peer_id j → i ≡ j) (s : System)
    (sound : IsSound peer_id s) (i : ℕ) where
  next_id_unknown :
      (x : TodoState)
      → IsOwned peer_id s.replica x
      → HashMap.get x.texts (next_id (s.replica i)) ≡ none
  next_id_unknown x own = elim (Option-cases (HashMap.get x.texts (next_id (s.replica i)))) [
    | inl unknown ↦ unknown
    | inr (t, known) ↦
        let m = own.made (next_id (s.replica i)) t known in
        let (names, numbers) =
          format_id-injective (s.replica i).peer_id (peer_id m.maker) _ m.number m.is_id in
        let same : i ≡ m.maker = distinct i m.maker (sym (sound.named i) ∙ names) in
        let bound : m.number ≤ (s.replica i).next_local_id = rw same m.counted in
        absurd (omega arith)
  ]

  -- No replica and no state on its way has a trace of the next id.
  pub next_id-HasNoTrace :
      AreTidy s
      → ((k : ℕ) → HasNoTrace (s.replica k) (next_id (s.replica i)))
        × ((x : TodoState) → In x s.sent → HasNoTrace x (next_id (s.replica i)))
  next_id-HasNoTrace tidy = (
    λ k. tidy.replica k (next_id (s.replica i)) (next_id_unknown (s.replica k) (sound.owned k)),
    λ x m. tidy.sent x m (next_id (s.replica i)) (next_id_unknown x (sound.sent_owned x m)),
  )
