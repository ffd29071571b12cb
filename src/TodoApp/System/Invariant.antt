-- ===== src/TodoApp/System/Invariant.antt =====
-- Every id that a state of the system knows was made by one replica, which knows its text.
use nettverksprogrammering_p.Base.{ℕ, ◌≤◌, ◌≡◌, some, arith, ite, ℕ_discrete, In}
use nettverksprogrammering_p.Std.HashMap
use nettverksprogrammering_p.Std.HashMap.{HashMap, get-insert, get-new}
use nettverksprogrammering_p.Std.Text.{Text, text_key}
use nettverksprogrammering_p.CrdtCore.VectorClock.Merge.{HasNoZeros}
use nettverksprogrammering_p.TodoApp.State.{TodoState, format_id}
use nettverksprogrammering_p.TodoApp.State.Shown.{HasCreators}
use nettverksprogrammering_p.TodoApp.System.{update, System}

-- `r` has grown to `r'`: what was written under an id stays, and no id is taken back.
pub record Grows (r r' : TodoState) : Type 0 where
  pub texts : (id t : Text) → HashMap.get r.texts id ≡ some t → HashMap.get r'.texts id ≡ some t
  pub count : r.next_local_id ≤ r'.next_local_id

Grows-refl : (r : TodoState) → Grows r r
Grows-refl r = record { texts = λ id t e. e; count = omega arith }

pub Grows-update :
    (f : ℕ → TodoState) (i : ℕ) (r : TodoState)
    → Grows (f i) r
    → (j : ℕ) → Grows (f j) (update f i r j)
Grows-update f i r h j = elim (ℕ_discrete i j) as (λ d. Grows (f j) (ite d r (f j))) [
  | yes p ↦ rw (← p) h
  | no p ↦ Grows-refl (f j)
]

pub update_self : {A : Type 0} (f : ℕ → A) (i : ℕ) (r : A) → update f i r i ≡ r
update_self f i r = ground arith

module _ (peer_id : ℕ → Text) where
  -- The replica with index `maker` made the id as its `number`-th, and has the text.
  pub record Made (replica : ℕ → TodoState) (id t : Text) : Type 0 where
    pub maker : ℕ
    pub number : ℕ
    pub is_id : id ≡ format_id (peer_id maker) number
    pub counted : number ≤ (replica maker).next_local_id
    pub has_text : HashMap.get (replica maker).texts id ≡ some t

  pub record IsOwned (replica : ℕ → TodoState) (x : TodoState) : Type 0 where
    pub made : (id t : Text) → HashMap.get x.texts id ≡ some t → Made replica id t
    pub created :
        (id c : Text)
        → HashMap.get x.creators id ≡ some c
        → (i : ℕ) × (n : ℕ) × (id ≡ format_id (peer_id i) n) × (c ≡ peer_id i)
    pub credited : HasCreators x
    pub no_zeros : HasNoZeros x.clock

  pub record IsSound (s : System) : Type 0 where
    pub named : (i : ℕ) → (s.replica i).peer_id ≡ peer_id i
    pub owned : (i : ℕ) → IsOwned s.replica (s.replica i)
    pub sent_owned : (x : TodoState) → In x s.sent → IsOwned s.replica x

  module _ (f g : ℕ → TodoState) (grows : (i : ℕ) → Grows (f i) (g i)) where
    pub IsOwned_mono : (x : TodoState) → IsOwned f x → IsOwned g x
    IsOwned_mono x h = record {
      made = λ id t e.
          let m = h.made id t e in
          record {
            maker = m.maker;
            number = m.number;
            is_id = m.is_id;
            counted = omega (arith, (grows m.maker).count);
            has_text = (grows m.maker).texts id t m.has_text;
          };
      created = h.created;
      credited = h.credited;
      no_zeros = h.no_zeros;
    }

  -- One replica of a sound system has grown into a state that is sound in the new system.
  pub keep :
      (s : System) (i : ℕ) (r : TodoState)
      → IsSound s
      → Grows (s.replica i) r
      → r.peer_id ≡ peer_id i
      → IsOwned (update s.replica i r) r
      → IsSound (record s { replica = update s.replica i r })
  keep s i r h grows name own =
      let mono = IsOwned_mono s.replica (update s.replica i r) (Grows-update s.replica i r grows) in
      record {
        named = λ j. elim (ℕ_discrete i j) as (λ d. (ite d r (s.replica j)).peer_id ≡ peer_id j) [
          | yes p ↦ rw (← p) name
          | no p ↦ h.named j
        ];
        owned = λ j.
            elim (ℕ_discrete i j) as (λ d. IsOwned (update s.replica i r) (ite d r (s.replica j))) [
              | yes p ↦ own
              | no p ↦ mono (s.replica j) (h.owned j)
            ];
        sent_owned = λ x m. mono x (h.sent_owned x m);
      }
