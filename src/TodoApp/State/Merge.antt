-- ===== src/TodoApp/State/Merge.antt =====
-- `TodoState::merge`, field by field, and its laws.
use mathlib.Core.Bool.{◌||◌}
use nettverksprogrammering_p.Base.{
  ◌≡◌, refl, ◌∙◌, Bool, false, Option, none, some, arith, ite, unwrap_or, or_else,
}
use nettverksprogrammering_p.Std.HashMap
use nettverksprogrammering_p.Std.HashMap.{HashMap, get-insert}
use nettverksprogrammering_p.Std.HashMap.Loop.{get-for_entries, combine}
use nettverksprogrammering_p.Std.Text.{Text, text_key, text_discrete}
use nettverksprogrammering_p.CrdtCore.Clock.{ReplicaId}
use nettverksprogrammering_p.CrdtCore.GSet.Laws as GSetLaws
use nettverksprogrammering_p.CrdtCore.GSet.Laws.{either, either_comm, either_assoc, either_idem}
use nettverksprogrammering_p.CrdtCore.Traits.{IsConvergent}
use nettverksprogrammering_p.CrdtCore.Traits.Pointwise.{pointwise, both}
use nettverksprogrammering_p.CrdtCore.VectorClock.Merge as ClockMerge
use nettverksprogrammering_p.CrdtCore.VectorClock.Merge.{HasNoZeros, entry_of}
use nettverksprogrammering_p.TodoApp.State.{TodoState, merge, keep_first, merge_completed, cvrdt}

or_else_assoc : (x y z : Option Text) → or_else (or_else x y) z ≡ or_else x (or_else y z)
or_else_assoc x y z = ground arith

or_else_idem : (x : Option Text) → or_else x x ≡ x
or_else_idem x = ground arith

-- What the loops of `merge` do to one key.
abbrev pub join_completed : Option Bool → Option Bool → Option Bool
join_completed a none = a
join_completed none (some b) = some b
join_completed (some a) (some b) = some (a || b)

completed_comm : (x y : Option Bool) → join_completed x y ≡ join_completed y x
completed_comm x y = ground arith

completed_assoc :
    (x y z : Option Bool)
    → join_completed (join_completed x y) z ≡ join_completed x (join_completed y z)
completed_assoc x y z = ground arith

completed_idem : (x : Option Bool) → join_completed x x ≡ x
completed_idem x = ground arith

keep_first-get :
    (id text : Text) (m : HashMap Text Text) (j : Text)
    → HashMap.get (keep_first id text m) j
      ≡ ite (text_discrete id j) (some (unwrap_or (HashMap.get m id) text)) (HashMap.get m j)
keep_first-get id text m j = ground (arith, get-insert m id text j)

combine-keep : (x y : Option Text) → combine (λ t o. some (unwrap_or o t)) y x ≡ or_else x y
combine-keep x y = ground arith

abbrev set_completed : Bool → Option Bool → Option Bool
set_completed b o = some (unwrap_or o false || b)

combine-completed : (x y : Option Bool) → combine set_completed y x ≡ join_completed x y
combine-completed x y = ground arith

module _ (a b : TodoState) where
  pub get-added :
      (id : Text)
      → HashMap.get (merge a b).added.elements id
        ≡ either (HashMap.get a.added.elements id) (HashMap.get b.added.elements id)
  unfolding merge
  get-added = GSetLaws.get-merge a.added b.added

  pub get-removed :
      (id : Text)
      → HashMap.get (merge a b).removed.elements id
        ≡ either (HashMap.get a.removed.elements id) (HashMap.get b.removed.elements id)
  unfolding merge
  get-removed = GSetLaws.get-merge a.removed b.removed

  -- The text that is there stays.
  pub get-texts :
      (id : Text)
      → HashMap.get (merge a b).texts id ≡ or_else (HashMap.get a.texts id) (HashMap.get b.texts id)
  unfolding merge
  get-texts id =
      get-for_entries keep_first (λ t o. some (unwrap_or o t)) keep_first-get b.texts a.texts id
      ∙ combine-keep (HashMap.get a.texts id) (HashMap.get b.texts id)

  pub get-creators :
      (id : Text)
      → HashMap.get (merge a b).creators id
        ≡ or_else (HashMap.get a.creators id) (HashMap.get b.creators id)
  unfolding merge
  get-creators id =
      get-for_entries keep_first (λ t o. some (unwrap_or o t)) keep_first-get b.creators a.creators
        id
      ∙ combine-keep (HashMap.get a.creators id) (HashMap.get b.creators id)

  pub get-completed :
      (id : Text)
      → HashMap.get (merge a b).completed id
        ≡ join_completed (HashMap.get a.completed id) (HashMap.get b.completed id)
  unfolding merge
  get-completed id =
      get-for_entries merge_completed set_completed (λ k v m j. get-insert m k _ j) b.completed
        a.completed id
      ∙ combine-completed (HashMap.get a.completed id) (HashMap.get b.completed id)

  get-clock :
      (r : ReplicaId)
      → entry_of (merge a b).clock r ≡ ClockMerge.join (entry_of a.clock r) (entry_of b.clock r)
  unfolding merge
  get-clock = ClockMerge.entry-merge a.clock b.clock

-- The replicated fields hold the same entries; the three fields that are not sent may differ.
abbrev pub Same : TodoState → TodoState → Type 0
Same a b =
    ((id : Text) → HashMap.get a.added.elements id ≡ HashMap.get b.added.elements id)
    × (((id : Text) → HashMap.get a.removed.elements id ≡ HashMap.get b.removed.elements id)
        × (((id : Text) → HashMap.get a.texts id ≡ HashMap.get b.texts id)
            × (((id : Text) → HashMap.get a.creators id ≡ HashMap.get b.creators id)
                × (((id : Text) → HashMap.get a.completed id ≡ HashMap.get b.completed id)
                    × ((r : ReplicaId) → entry_of a.clock r ≡ entry_of b.clock r)))))

pub merge-HasNoZeros :
    (a b : TodoState) → HasNoZeros a.clock → HasNoZeros b.clock → HasNoZeros (merge a b).clock
unfolding merge
merge-HasNoZeros a b = ClockMerge.VectorClock-IsConvergent.merge_valid a.clock b.clock

-- Every id stands for one text and one creator, and no clock entry is 0.
pub record Agrees (text_of creator_of : Text → Text) (s : TodoState) : Type 0 where
  pub text : (id t : Text) → HashMap.get s.texts id ≡ some t → t ≡ text_of id
  pub creator : (id t : Text) → HashMap.get s.creators id ≡ some t → t ≡ creator_of id
  pub counted : HasNoZeros s.clock

first_of_two :
    (x y : Option Text) (t u : Text)
    → ((v : Text) → x ≡ some v → v ≡ u)
    → ((v : Text) → y ≡ some v → v ≡ u)
    → or_else x y ≡ some t
    → t ≡ u
first_of_two none y t u hx hy e = hy t e
first_of_two (some x) y t u hx hy e = hx t e

or_else_comm :
    (x y : Option Text) (u : Text)
    → ((v : Text) → x ≡ some v → v ≡ u)
    → ((v : Text) → y ≡ some v → v ≡ u)
    → or_else x y ≡ or_else y x
or_else_comm none none u hx hy = refl
or_else_comm none (some y) u hx hy = refl
or_else_comm (some x) none u hx hy = refl
or_else_comm (some x) (some y) u hx hy = cc (hx x refl, hy y refl)

module _ (text_of creator_of : Text → Text) where
  merge-Agrees :
      (a b : TodoState)
      → Agrees text_of creator_of a
      → Agrees text_of creator_of b
      → Agrees text_of creator_of (merge a b)
  unfolding merge
  merge-Agrees a b h k = record {
    text = λ id t e.
        first_of_two (HashMap.get a.texts id) (HashMap.get b.texts id) t (text_of id) (h.text id)
          (k.text id) (rw (get-texts a b id) at e);
    creator = λ id t e.
        first_of_two (HashMap.get a.creators id) (HashMap.get b.creators id) t (creator_of id)
          (h.creator id) (k.creator id) (rw (get-creators a b id) at e);
    counted = merge-HasNoZeros a b h.counted k.counted;
  }

  abbrev ConvergesAt : {K W : Type 0} → (TodoState → K → W) → Type 0
  ConvergesAt {K} view =
      IsConvergent (Agrees text_of creator_of) (λ a b. (k : K) → view a k ≡ view b k) cvrdt

  at_added : ConvergesAt (λ s id. HashMap.get s.added.elements id)
  at_added =
      pointwise (Agrees text_of creator_of) (λ s id. HashMap.get s.added.elements id) cvrdt either
        get-added merge-Agrees
        (λ a b _ _ id.
          either_comm (HashMap.get a.added.elements id) (HashMap.get b.added.elements id))
        either_assoc either_idem

  at_removed : ConvergesAt (λ s id. HashMap.get s.removed.elements id)
  at_removed =
      pointwise (Agrees text_of creator_of) (λ s id. HashMap.get s.removed.elements id) cvrdt either
        get-removed merge-Agrees
        (λ a b _ _ id.
          either_comm (HashMap.get a.removed.elements id) (HashMap.get b.removed.elements id))
        either_assoc either_idem

  at_texts : ConvergesAt (λ s id. HashMap.get s.texts id)
  at_texts =
      pointwise (Agrees text_of creator_of) (λ s id. HashMap.get s.texts id) cvrdt or_else get-texts
        merge-Agrees
        (λ a b h k id.
          or_else_comm (HashMap.get a.texts id) (HashMap.get b.texts id) (text_of id) (h.text id)
            (k.text id))
        or_else_assoc or_else_idem

  at_creators : ConvergesAt (λ s id. HashMap.get s.creators id)
  at_creators =
      pointwise (Agrees text_of creator_of) (λ s id. HashMap.get s.creators id) cvrdt or_else
        get-creators merge-Agrees
        (λ a b h k id.
          or_else_comm (HashMap.get a.creators id) (HashMap.get b.creators id) (creator_of id)
            (h.creator id) (k.creator id))
        or_else_assoc or_else_idem

  at_completed : ConvergesAt (λ s id. HashMap.get s.completed id)
  at_completed =
      pointwise (Agrees text_of creator_of) (λ s id. HashMap.get s.completed id) cvrdt
        join_completed get-completed merge-Agrees
        (λ a b _ _ id. completed_comm (HashMap.get a.completed id) (HashMap.get b.completed id))
        completed_assoc completed_idem

  at_clock : ConvergesAt (λ s r. entry_of s.clock r)
  at_clock =
      pointwise (Agrees text_of creator_of) (λ s r. entry_of s.clock r) cvrdt ClockMerge.join
        get-clock merge-Agrees
        (λ a b h k r.
          ClockMerge.join_comm (entry_of a.clock r) (entry_of b.clock r) (h.counted.at r)
            (k.counted.at r))
        ClockMerge.join_assoc ClockMerge.join_idem

  -- Among states that agree on the text and the creator of each id and have no clock entry of 0,
  -- the merge satisfies the laws of a convergent type.
  pub TodoState-IsConvergent : IsConvergent (Agrees text_of creator_of) Same cvrdt
  TodoState-IsConvergent =
      both at_added
        (both at_removed (both at_texts (both at_creators (both at_completed at_clock))))

  -- For two states that agree on the text and the creator of each id and have no clock entry of 0, and
  -- any third state: merging the two in either order gives the same entries, merging all three in
  -- either grouping does, and merging the first with itself gives its own.
  pub todo_merge_laws :
      (a b c : TodoState)
      → Agrees text_of creator_of a
      → Agrees text_of creator_of b
      → Same (merge a b) (merge b a)
        × Same (merge (merge a b) c) (merge a (merge b c))
        × Same (merge a a) a
  todo_merge_laws a b c h k =
      let laws = TodoState-IsConvergent in
      (laws.merge_comm a b h k, laws.merge_assoc a b c, laws.merge_idem a)
