-- ===== src/CrdtSync/Changes/Drives.antt =====
-- The steps of a connection, and the loop of `drive_outgoing`.
use nettverksprogrammering_p.Base.{
  ◌≡◌, refl, ap, sym, ◌∙◌, ℕ, true, false, none, some, List, [], ◌∷◌, ◌++◌, All, map, arith,
}
use mathlib.Core.List.{append-nil, map-append, append_assoc}
use nettverksprogrammering_p.Std.Text.{Text}
use nettverksprogrammering_p.CrdtCore.Traits.{CvRdt}
use nettverksprogrammering_p.CrdtSync.{
  SyncMessage, hello, state, Codec, Outcome, Wake, ticked, Turn, drive_loop, drive_outgoing,
}
use nettverksprogrammering_p.CrdtSync.Pushes.{pushes, goes_on_drive, stops_drive, greeting_works}
use nettverksprogrammering_p.CrdtSync.Changes.{
  woken, Outgoing, subscribe, Task, notify, first_push, push, wake, lag, tick, task, operate,
  receive, fail, Run, here, next,
}

-- The states that went out, in their order.
unfoldable pub states_of : {S : Type 0} → List (Wake × S) → List S
states_of [] = []
states_of ((w, s) ∷ turns) = states_of turns ++ s ∷ []

unfoldable pub all_pushed : {S : Type 0} → Outgoing S → List S
all_pushed v = elim v.first [ none ↦ [] | some f ↦ f ∷ states_of v.turns ]

module _ {S : Type 0} (codec : Codec S) (cvrdt : CvRdt S) where
  -- The loop only wakes up in order to push.
  record WakesToPush (v : Outgoing S) : Type 0 where
    turns : All (λ (t : Wake × S). pushes codec t.0 ≡ true) v.turns
    waking : (w : Wake) → v.phase ≡ woken w → pushes codec w ≡ true

  task-WakesToPush : (v w : Outgoing S) → Task v w → WakesToPush v → WakesToPush w
  unfolding pushes
  task-WakesToPush v w (notify e) h = record { turns = h.turns; waking = h.waking }
  task-WakesToPush v w (first_push at) h = record { turns = tt; waking = λ b e. cc }
  task-WakesToPush v w (push b at) h = record {
    turns = (h.waking b at, h.turns);
    waking = λ b' e. cc;
  }
  task-WakesToPush v w (wake at e fits) h = record { turns = h.turns; waking = λ b e. ground arith }
  task-WakesToPush v w (lag at lt) h = record { turns = h.turns; waking = λ b e. cc }
  task-WakesToPush v w (tick at) h = record { turns = h.turns; waking = λ b e. ground arith }

  Run-WakesToPush : (s : S) (k : ℕ) {v : Outgoing S} → Run cvrdt (subscribe s k) v → WakesToPush v
  Run-WakesToPush s k here = record { turns = tt; waking = λ b e. cc }
  Run-WakesToPush s k (next {w} {x} r (task t)) = task-WakesToPush w x t (Run-WakesToPush s k r)
  Run-WakesToPush s k (next r (operate t)) =
      let h = Run-WakesToPush s k r in record { turns = h.turns; waking = h.waking }
  Run-WakesToPush s k (next r (receive remote)) =
      let h = Run-WakesToPush s k r in record { turns = h.turns; waking = h.waking }
  Run-WakesToPush s k (next r fail) =
      let h = Run-WakesToPush s k r in record { turns = h.turns; waking = λ b e. cc }

module _ {S : Type 0} (codec : Codec S) where
  open codec use {Bytes, serialize}

  -- The rounds of the loop, in their order, on a socket that takes all frames.
  unfoldable pub rounds : List (Wake × S) → List (Turn codec)
  rounds [] = []
  rounds ((w, s) ∷ turns) = rounds turns ++ (w, s, true) ∷ []

  module _ (total : (msg : SyncMessage S) → (b : Bytes) × (serialize msg ≡ some b)) where
    abbrev Goes : Turn codec → Type 0
    Goes t = (pushes codec t.0 ≡ true) × (t.2 ≡ true)

    -- the bytes of a state
    abbrev pub frame_of : S → Bytes
    frame_of x = (total (state x)).0

    -- The loop goes on with `later` after rounds in which it pushes, and has written their states.
    drive_loop-append :
        (ts later : List (Turn codec)) (frames : List Bytes)
        → All Goes ts
        → drive_loop codec frames (ts ++ later)
          ≡ drive_loop codec (frames ++ map (λ t. frame_of t.1) ts) later
    drive_loop-append [] later frames h = rw (append-nil frames) refl
    drive_loop-append ((w, s, a) ∷ ts) later frames h =
        let taken : a ≡ true = h.0.1 in
        let goes =
          goes_on_drive codec w frames s (ts ++ later) (frame_of s) h.0.0 (total (state s)).1 in
        let there = drive_loop-append ts later (frames ++ frame_of s ∷ []) h.1 in
        let joined =
          append_assoc frames (frame_of s ∷ []) (map (λ (t : Turn codec). frame_of t.1) ts) in
        rw taken (goes.0 ∙ there ∙ ap (λ xs. drive_loop codec xs later) joined)

    map-rounds :
        (turns : List (Wake × S))
        → map (λ t. frame_of t.1) (rounds turns) ≡ map frame_of (states_of turns)
    unfolding rounds states_of
    map-rounds [] = refl
    map-rounds ((w, s) ∷ turns) =
        map-append (λ (t : Turn codec). frame_of t.1) (rounds turns) ((w, s, true) ∷ [])
        ∙ ap (λ xs. xs ++ frame_of s ∷ []) (map-rounds turns)
        ∙ sym (map-append frame_of (states_of turns) (s ∷ []))

    All-snoc :
        (ts : List (Turn codec)) (t : Turn codec) → All Goes ts → Goes t → All Goes (ts ++ t ∷ [])
    All-snoc [] t h g = (g, tt)
    All-snoc (u ∷ ts) t h g = (h.0, All-snoc ts t h.1 g)

    rounds-Goes :
        (turns : List (Wake × S))
        → All (λ (t : Wake × S). pushes codec t.0 ≡ true) turns
        → All Goes (rounds turns)
    unfolding rounds
    rounds-Goes [] h = tt
    rounds-Goes ((w, s) ∷ turns) h =
        All-snoc (rounds turns) (w, s, true) (rounds-Goes turns h.1) (h.0, refl)

    -- After the rounds in which a connection pushed, its loop stands at what comes later, and has
    -- written the greeting and the states.
    driven :
        (peer_id : Text) (f : S) (turns : List (Wake × S)) (later : List (Turn codec))
        → All Goes (rounds turns)
        → drive_outgoing codec peer_id true f true (rounds turns ++ later)
          ≡ drive_loop codec ((total (hello peer_id)).0 ∷ map frame_of (f ∷ states_of turns)) later
    driven peer_id f turns later goes =
        let (b, hi) = total (hello peer_id) in
        let greeted = greeting_works codec peer_id f true (rounds turns ++ later) b hi in
        let first_goes : All Goes ((ticked, f, true) ∷ rounds turns) =
          ((unfold pushes in refl, refl), goes) in
        let loop = drive_loop-append ((ticked, f, true) ∷ rounds turns) later (b ∷ []) first_goes in
        greeted.0
        ∙ loop
        ∙ ap (λ xs. drive_loop codec (b ∷ frame_of f ∷ xs) later) (map-rounds turns)

    -- The steps of a connection are those of `drive_outgoing`, on a socket that takes all frames and
    -- with a codec that serializes all messages: from what the loop woke up for it writes exactly the
    -- greeting and the states that the connection has pushed, each in its bytes and in their order,
    -- and goes on; and if it wakes up next because the channel has lagged or is closed, it ends and
    -- has written the same.
    pub Run-drive_outgoing :
        (cvrdt : CvRdt S) (s : S) (k : ℕ) (v : Outgoing S) (f : S) (peer_id : Text)
        → Run cvrdt (subscribe s k) v
        → v.first ≡ some f
        → (drive_outgoing codec peer_id true f true (rounds v.turns) ≡ (
          (total (hello peer_id)).0 ∷ map (λ x. (total (state x)).0) (all_pushed v),
          Outcome.running,
        ))
          × ((x : S) (w : Wake)
              → pushes codec w ≡ false
              → drive_outgoing codec peer_id true f true (rounds v.turns ++ (w, x, true) ∷ []) ≡ (
                (total (hello peer_id)).0 ∷ map (λ x. (total (state x)).0) (all_pushed v),
                Outcome.ended,
              ))
    unfolding drive_loop all_pushed
    Run-drive_outgoing cvrdt s k v f peer_id r e =
        let goes = rounds-Goes v.turns (Run-WakesToPush codec cvrdt s k r).turns in
        let loop = driven peer_id f v.turns [] goes in
        let none_later : rounds v.turns ++ [] ≡ rounds v.turns = append-nil (rounds v.turns) in
        (
          rw (e, all_pushed) (rw none_later at loop),
          λ x w stops.
              let there = driven peer_id f v.turns ((w, x, true) ∷ []) goes in
              let written = (total (hello peer_id)).0 ∷ map frame_of (f ∷ states_of v.turns) in
              rw (e, all_pushed) (there ∙ (stops_drive codec w written x true [] stops).0),
        )
