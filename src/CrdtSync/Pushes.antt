-- ===== src/CrdtSync/Pushes.antt =====
-- Which states a connection gets out.
use nettverksprogrammering_p.Base.{
  ◌≡◌, refl, Bool, true, false, none, some, List, [], ◌∷◌, ◌++◌, arith, ◌⊎◌, if◌then◌else◌,
}
use nettverksprogrammering_p.Std.Text.{Text}
use nettverksprogrammering_p.CrdtSync.{
  hello, state, Codec, Outcome, Wake, changed, closed, lagged, ticked, send_message, push_state,
  drive_loop, drive_outgoing, Turn,
}

module _ {S : Type 0} (codec : Codec S) where
  open codec use {Bytes, serialize, deserialize}

  -- The states that the loop gets out: those of the wake-ups before the first that ends it.
  unfoldable pub pushed_turns : List (Turn codec) → List S
  pushed_turns [] = []
  pushed_turns ((closed, s, accepts) ∷ turns) = []
  pushed_turns ((lagged, s, accepts) ∷ turns) = []
  pushed_turns ((wake, s, accepts) ∷ turns) =
      let later = pushed_turns turns in
      elim (serialize (state s)) [ none ↦ [] | some b ↦ if accepts then s ∷ later else [] ]

  unfoldable pub pushes : Wake → Bool
  pushes changed = true
  pushes ticked = true
  pushes _ = false

  pub stops_drive :
      (w : Wake) (frames : List Bytes) (s : S) (a : Bool) (turns : List (Turn codec))
      → pushes w ≡ false
      → (drive_loop codec frames ((w, s, a) ∷ turns) ≡ (frames, Outcome.ended))
        × (pushed_turns ((w, s, a) ∷ turns) ≡ [])
  unfolding pushes drive_loop pushed_turns
  stops_drive changed frames s a turns h = cc
  stops_drive ticked frames s a turns h = cc
  stops_drive closed frames s a turns h = (refl, refl)
  stops_drive lagged frames s a turns h = (refl, refl)

  pub fails_drive :
      (w : Wake) (frames : List Bytes) (s : S) (a : Bool) (turns : List (Turn codec))
      → pushes w ≡ true
      → (serialize (state s) ≡ none) ⊎ (a ≡ false)
      → (drive_loop codec frames ((w, s, a) ∷ turns) ≡ (frames, Outcome.failed))
        × (pushed_turns ((w, s, a) ∷ turns) ≡ [])
  unfolding pushes drive_loop pushed_turns push_state send_message
  fails_drive changed frames s a turns h e = ground arith
  fails_drive ticked frames s a turns h e = ground arith
  fails_drive closed frames s a turns h e = cc
  fails_drive lagged frames s a turns h e = cc

  pub goes_on_drive :
      (w : Wake) (frames : List Bytes) (s : S) (turns : List (Turn codec)) (b : Bytes)
      → pushes w ≡ true
      → serialize (state s) ≡ some b
      → (drive_loop codec frames ((w, s, true) ∷ turns) ≡ drive_loop codec (frames ++ b ∷ []) turns)
        × (pushed_turns ((w, s, true) ∷ turns) ≡ s ∷ pushed_turns turns)
  unfolding pushes drive_loop pushed_turns push_state send_message
  goes_on_drive changed frames s turns b h e = ground arith
  goes_on_drive ticked frames s turns b h e = ground arith
  goes_on_drive closed frames s turns b h e = cc
  goes_on_drive lagged frames s turns b h e = cc

  -- The states that a connection gets out: the first one, and those of the loop.
  unfoldable pub pushed : Text → Bool → S → Bool → List (Turn codec) → List S
  unfolding pushed_turns
  pushed peer_id greets s accepts turns = elim (serialize (hello peer_id)) [
    | none ↦ []
    | some b ↦ if greets then pushed_turns ((ticked, s, accepts) ∷ turns) else []
  ]

  pub greeting_fails :
      (peer_id : Text) (greets : Bool) (s : S) (accepts : Bool) (turns : List (Turn codec))
      → (serialize (hello peer_id) ≡ none) ⊎ (greets ≡ false)
      → (drive_outgoing codec peer_id greets s accepts turns ≡ ([], Outcome.failed))
        × (pushed peer_id greets s accepts turns ≡ [])
  unfolding drive_outgoing pushed send_message
  greeting_fails peer_id greets s accepts turns e = ground arith

  pub greeting_works :
      (peer_id : Text) (s : S) (accepts : Bool) (turns : List (Turn codec)) (b : Bytes)
      → serialize (hello peer_id) ≡ some b
      → (drive_outgoing codec peer_id true s accepts turns
          ≡ drive_loop codec (b ∷ []) ((ticked, s, accepts) ∷ turns))
        × (pushed peer_id true s accepts turns ≡ pushed_turns ((ticked, s, accepts) ∷ turns))
  unfolding drive_outgoing pushed send_message
  greeting_works peer_id s accepts turns b e = (rw (e, drive_outgoing), rw (e, pushed))

  -- A connection that greets and whose first push is taken has pushed the state that it began with.
  pub pushed-first :
      (peer_id : Text) (s : S) (turns : List (Turn codec)) (b c : Bytes)
      → serialize (hello peer_id) ≡ some b
      → serialize (state s) ≡ some c
      → pushed peer_id true s true turns ≡ s ∷ pushed_turns turns
  unfolding pushed pushed_turns
  pushed-first peer_id s turns b c e f = rw (e, pushed, f, pushed_turns)
