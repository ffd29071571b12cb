-- ===== src/CrdtCore/VectorClock/Compare.antt =====
-- `partial_cmp` decides the order of the clocks entry by entry.
use Prim.Native.Nat.{compare}
use Prim.Native.Nat.Ordering.{lt, eq, gt}
use nettverksprogrammering_p.Base.{
  ◌≤◌, ◌≡◌, refl, ◌↔◌, Bool, true, false, ◌||◌, ◌&&◌, none, some, List, [], ◌∷◌, ◌++◌, arith, ltb,
}
use nettverksprogrammering_p.Std.HashMap
use nettverksprogrammering_p.Std.HashMap.{HashMap, nat_key, contains_key}
use nettverksprogrammering_p.Std.HashMap.Keys.{any, any-eq_false, any-keys}
use nettverksprogrammering_p.CrdtCore.Clock.{ReplicaId}
use nettverksprogrammering_p.CrdtCore.VectorClock.{
  VectorClock, get, mark, verdict, compare_from, partial_cmp,
}

-- No entry of `a` is ahead of `b`.
abbrev pub Leq : VectorClock → VectorClock → Type 0
Leq a b = (r : ReplicaId) → get a r ≤ get b r

abbrev behind : VectorClock → VectorClock → ReplicaId → Bool
behind a b r = ltb (get a r) (get b r)

compare_from_lem :
    (a b : VectorClock) (rs : List ReplicaId) (less greater : Bool)
    → (less && greater) ≡ false
    → compare_from a b rs less greater
      ≡ verdict (less || any (behind a b) rs) (greater || any (behind b a) rs)
unfolding compare_from get
compare_from_lem a b [] less greater h = ground arith
compare_from_lem a b (r ∷ rs) less greater h =
    let flags = mark (compare (get a r) (get b r)) less greater in
    ground (arith, compare_from_lem a b rs flags.0 flags.1)

-- The flags at the end of the loop.
abbrev some_behind : VectorClock → VectorClock → VectorClock → VectorClock → Bool
some_behind a b c d = any (behind a b) (HashMap.keys c.entries ++ HashMap.keys d.entries)

any-append :
    (p : ReplicaId → Bool) (xs ys : List ReplicaId) → any p (xs ++ ys) ≡ (any p xs || any p ys)
any-append p [] ys = refl
any-append p (x ∷ xs) ys = ground (arith, any-append p xs ys)

module _ (a b c d : VectorClock) where
  Leq-of_none_behind :
      some_behind a b c d ≡ false
      → ((r : ReplicaId)
          → (contains_key c.entries r || contains_key d.entries r) ≡ false
          → behind a b r ≡ false)
      → Leq b a
  Leq-of_none_behind h out r = ground (
    arith,
    any-append (behind a b) (HashMap.keys c.entries) (HashMap.keys d.entries),
    any-keys (behind a b) c.entries r,
    any-keys (behind a b) d.entries r,
    out r,
  )

  none_behind_of_Leq : Leq b a → some_behind a b c d ≡ false
  none_behind_of_Leq h =
      any-eq_false (behind a b) (HashMap.keys c.entries ++ HashMap.keys d.entries)
        (λ r. ground (arith, h r))

-- A replica that neither clock knows is not behind.
unknown :
    (a b : VectorClock) (r : ReplicaId)
    → (contains_key a.entries r || contains_key b.entries r) ≡ false
    → (behind a b r ≡ false) × (behind b a r ≡ false)
unfolding get contains_key
unknown a b r h = ground arith

module _ (a b : VectorClock) where
  left_flag : (some_behind a b a b ≡ false) ↔ Leq b a
  left_flag =
      (λ h. Leq-of_none_behind a b a b h (λ r e. (unknown a b r e).0), none_behind_of_Leq a b a b)

  right_flag : (some_behind b a a b ≡ false) ↔ Leq a b
  right_flag =
      (λ h. Leq-of_none_behind b a a b h (λ r e. (unknown a b r e).1), none_behind_of_Leq b a a b)

  partial_cmp-flags : partial_cmp a b ≡ verdict (some_behind a b a b) (some_behind b a a b)
  unfolding partial_cmp
  partial_cmp-flags =
      compare_from_lem a b (HashMap.keys a.entries ++ HashMap.keys b.entries) false false refl

-- What two flags say, given what each of them decides.
module _ {P Q : Type 0} where
  verdict_iff :
      (x y : Bool)
      → (x ≡ false) ↔ P
      → (y ≡ false) ↔ Q
      → ((verdict x y ≡ some eq) ↔ (Q × P))
        × ((verdict x y ≡ some lt) ↔ (Q × ¬ P))
        × ((verdict x y ≡ some gt) ↔ (¬ Q × P))
        × ((verdict x y ≡ none) ↔ (¬ Q × ¬ P))
  unfolding verdict
  verdict_iff true true (p_of, of_p) (q_of, of_q) =
      let not_p : ¬ P = λ p. cc (of_p p) in
      let not_q : ¬ Q = λ q. cc (of_q q) in
      (
        (λ e. cc, λ h. absurd (not_p h.1)),
        (λ e. cc, λ h. absurd (not_q h.0)),
        (λ e. cc, λ h. absurd (not_p h.1)),
        (λ e. (not_q, not_p), λ h. refl),
      )
  verdict_iff true false (p_of, of_p) (q_of, of_q) =
      let not_p : ¬ P = λ p. cc (of_p p) in
      (
        (λ e. cc, λ h. absurd (not_p h.1)),
        (λ e. (q_of refl, not_p), λ h. refl),
        (λ e. cc, λ h. absurd (not_p h.1)),
        (λ e. cc, λ h. absurd (h.0 (q_of refl))),
      )
  verdict_iff false true (p_of, of_p) (q_of, of_q) =
      let not_q : ¬ Q = λ q. cc (of_q q) in
      (
        (λ e. cc, λ h. absurd (not_q h.0)),
        (λ e. cc, λ h. absurd (not_q h.0)),
        (λ e. (not_q, p_of refl), λ h. refl),
        (λ e. cc, λ h. absurd (h.1 (p_of refl))),
      )
  verdict_iff false false (p_of, of_p) (q_of, of_q) = (
    (λ e. (q_of refl, p_of refl), λ h. refl),
    (λ e. cc, λ h. absurd (h.1 (p_of refl))),
    (λ e. cc, λ h. absurd (h.0 (q_of refl))),
    (λ e. cc, λ h. absurd (h.0 (q_of refl))),
  )

-- `partial_cmp` decides the order entry by entry: each of its four answers is given exactly where
-- neither, one or both of the clocks have an entry ahead of the other.
pub partial_cmp_iff :
    (a b : VectorClock)
    → ((partial_cmp a b ≡ some eq) ↔ (Leq a b × Leq b a))
      × ((partial_cmp a b ≡ some lt) ↔ (Leq a b × ¬ Leq b a))
      × ((partial_cmp a b ≡ some gt) ↔ (¬ Leq a b × Leq b a))
      × ((partial_cmp a b ≡ none) ↔ (¬ Leq a b × ¬ Leq b a))
partial_cmp_iff a b =
    rw (partial_cmp-flags a b)
      (verdict_iff (some_behind a b a b) (some_behind b a a b) (left_flag a b) (right_flag a b))
