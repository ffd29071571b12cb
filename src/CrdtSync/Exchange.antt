-- ===== src/CrdtSync/Exchange.antt =====
-- From the sender to the receiver: what `drive_outgoing` writes, `serve_incoming` merges.
use mathlib.Core.List.{append-nil, append_assoc}
use nettverksprogrammering_p.Base.{
  ℕ, ◌+◌, ◌≡◌, ap, ◌∙◌, Bool, some, List, [], ◌∷◌, ◌++◌, arith, map, length, length-map,
  Option-cases, Bool-cases, inl, inr,
}
use nettverksprogrammering_p.Std.Text.{Text}
use nettverksprogrammering_p.CrdtCore.Traits.{CvRdt}
use nettverksprogrammering_p.CrdtCore.Traits.Delivery.{merge_all}
use nettverksprogrammering_p.CrdtSync.{
  SyncMessage, hello, state, Codec, Outcome, Frame, bytes, ticked, drive_loop, drive_outgoing,
  serve_frames, Turn,
}
use nettverksprogrammering_p.CrdtSync.Pushes.{
  pushes, pushed_turns, stops_drive, fails_drive, goes_on_drive, pushed, greeting_fails,
  greeting_works,
}

-- What arrives of a message whose state is sent: the codec may leave fields out.
abbrev pub arrival : {S : Type 0} → (S → S) → SyncMessage S → SyncMessage S
arrival leaves (hello peer_id) = hello peer_id
arrival leaves (state s) = state (leaves s)

-- What bincode documents: what was serialized is read back, up to the fields that are skipped.
pub record IsFaithful {S : Type 0} (codec : Codec S) (leaves : S → S) : Type 0 where
  pub reads :
      (msg : SyncMessage S) (b : codec.Bytes)
      → codec.serialize msg ≡ some b
      → codec.deserialize b ≡ some (arrival leaves msg)

module _ {S : Type 0} (codec : Codec S) where
  open codec use {Bytes, serialize, deserialize}

  -- Frames as they arrive while no other task touches the state.
  abbrev pub quiet : List Bytes → List ((S → S) × Frame Bytes)
  quiet = map (λ b. (λ s. s, bytes b))

  -- The frames hold these states, and greetings besides.
  pub data Reads : List Bytes → List S → Type 0 where
    done : Reads [] []
    greeted :
        {b : Bytes} {bs : List Bytes} {xs : List S} (peer_id : Text)
        → deserialize b ≡ some (hello peer_id)
        → Reads bs xs
        → Reads (b ∷ bs) xs
    sent :
        {b : Bytes} {bs : List Bytes} {x : S} {xs : List S}
        → deserialize b ≡ some (state x)
        → Reads bs xs
        → Reads (b ∷ bs) (x ∷ xs)

  pub Reads-snoc :
      {bs : List Bytes} {xs : List S} (b : Bytes) (x : S)
      → deserialize b ≡ some (state x)
      → Reads bs xs
      → Reads (bs ++ b ∷ []) (xs ++ x ∷ [])
  Reads-snoc b x e done = sent e done
  Reads-snoc b x e (greeted p f r) = greeted p f (Reads-snoc b x e r)
  Reads-snoc b x e (sent f r) = sent f (Reads-snoc b x e r)

  pub serve-Reads :
      (cvrdt : CvRdt S) {bs : List Bytes} {xs : List S} (s : S) (n : ℕ)
      → Reads bs xs
      → serve_frames codec cvrdt s n (quiet bs)
        ≡ (merge_all cvrdt s xs, n + length xs, Outcome.ended)
  unfolding serve_frames merge_all
  serve-Reads cvrdt s n done = ap (λ k. (s, k, Outcome.ended)) (omega arith)
  serve-Reads cvrdt s n (greeted p e r) = rw (e, serve_frames) (serve-Reads cvrdt s n r)
  serve-Reads cvrdt s n (sent {x} {xs} e r) =
      rw (e, serve_frames)
        (serve-Reads cvrdt (cvrdt.merge s x) (n + 1) r
          ∙ ap (λ k. (merge_all cvrdt (cvrdt.merge s x) xs, k, Outcome.ended)) (omega arith))

  module _ (leaves : S → S) (faithful : IsFaithful codec leaves) where
    drive-Reads :
        (turns : List (Turn codec)) (frames : List Bytes) (xs : List S)
        → Reads frames xs
        → Reads (drive_loop codec frames turns).0 (xs ++ map leaves (pushed_turns codec turns))
    unfolding drive_loop pushed_turns
    drive-Reads [] frames xs r = rw (append-nil xs) r
    drive-Reads ((w, s, a) ∷ turns) frames xs r = elim (Bool-cases (pushes codec w)) [
      | inr stops ↦
          let (drives, pushed) = stops_drive codec w frames s a turns stops in
          rw (drives, pushed, append-nil) r
      | inl goes ↦ elim (Bool-cases a) [
        | inr refused ↦
            let (drives, pushed) = fails_drive codec w frames s a turns goes (inr refused) in
            rw (drives, pushed, append-nil) r
        | inl taken ↦ elim (Option-cases (serialize (state s))) [
          | inl error ↦
              let (drives, pushed) = fails_drive codec w frames s a turns goes (inl error) in
              rw (drives, pushed, append-nil) r
          | inr (b, encoded) ↦
              let (drives, pushed) = goes_on_drive codec w frames s turns b goes encoded in
              rw (taken, drives, pushed)
                (rw (← append_assoc xs (leaves s ∷ []) (map leaves (pushed_turns codec turns))) (
                  drive-Reads turns (frames ++ b ∷ []) (xs ++ leaves s ∷ [])
                    (Reads-snoc b (leaves s) (faithful.reads (state s) b encoded) r)))
        ]
      ]
    ]

  module _ (leaves : S → S) (faithful : IsFaithful codec leaves) where
    outgoing-Reads :
        (peer_id : Text) (greets : Bool) (s : S) (accepts : Bool) (turns : List (Turn codec))
        → Reads
            (drive_outgoing codec peer_id greets s accepts turns).0
            (map leaves (pushed codec peer_id greets s accepts turns))
    outgoing-Reads peer_id greets s accepts turns = elim (Bool-cases greets) [
      | inr refused ↦
          let (drives, nothing) =
            greeting_fails codec peer_id greets s accepts turns (inr refused) in
          rw (drives, nothing) done
      | inl taken ↦ elim (Option-cases (serialize (hello peer_id))) [
        | inl error ↦
            let (drives, nothing) =
              greeting_fails codec peer_id greets s accepts turns (inl error) in
            rw (drives, nothing) done
        | inr (b, encoded) ↦
            let (drives, all) = greeting_works codec peer_id s accepts turns b encoded in
            rw (taken, drives, all)
              (drive-Reads leaves faithful ((ticked, s, accepts) ∷ turns) (b ∷ []) []
                (greeted peer_id (faithful.reads (hello peer_id) b encoded) done))
      ]
    ]

    -- What one node writes on a connection, and another reads from it to the end while nothing else
    -- touches its state: the receiver merges the pushed states in their order, up to the fields
    -- that the codec leaves out, sends one notification for each, and ends without an error. This
    -- holds however the sender's loop ended.
    pub exchange_merges :
        (cvrdt : CvRdt S) (local : S) (peer_id : Text) (greets : Bool) (s : S) (accepts : Bool)
        (turns : List (Turn codec))
        → serve_frames codec cvrdt local 0
            (quiet (drive_outgoing codec peer_id greets s accepts turns).0)
          ≡ (
            merge_all cvrdt local (map leaves (pushed codec peer_id greets s accepts turns)),
            length (pushed codec peer_id greets s accepts turns),
            Outcome.ended,
          )
    exchange_merges cvrdt local peer_id greets s accepts turns =
        serve-Reads cvrdt local 0 (outgoing-Reads peer_id greets s accepts turns)
        ∙ ap
            (λ n. (
              merge_all cvrdt local (map leaves (pushed codec peer_id greets s accepts turns)),
              n,
              Outcome.ended,
            ))
            (omega (arith, length-map leaves (pushed codec peer_id greets s accepts turns)))
