-- ===== src/CrdtSync/Incoming.antt =====
-- What comes of the frames that arrive.
use nettverksprogrammering_p.Base.{
  ℕ, ◌+◌, ◌≡◌, none, some, List, [], ◌∷◌, All, Option-cases, ◌⊎◌, inl, inr,
}
use nettverksprogrammering_p.Std.Text.{Text}
use nettverksprogrammering_p.CrdtCore.Traits.{CvRdt, IsConvergent}
use nettverksprogrammering_p.CrdtCore.Traits.Order.{
  Below, Below-refl, Below-trans, Below-merge_left, Below-merge_right,
}
use nettverksprogrammering_p.CrdtSync.{
  SyncMessage, Codec, Outcome, Frame, bytes, broken, serve_frames, hello, state,
}

module _ {S : Type 0} {Valid : S → Type 0} {Same : S → S → Type 0} {cvrdt : CvRdt S}
    (codec : Codec S) (laws : IsConvergent Valid Same cvrdt) where
  open codec use {Bytes, deserialize}

  -- What other tasks do to the state keeps it valid, and only lets it grow.
  abbrev pub Others : (S → S) → Type 0
  Others f = (s : S) → Valid s → Valid (f s) × Below laws s (f s)

  -- A frame that holds a state holds a valid one.
  abbrev pub Sound : Frame Bytes → Type 0
  Sound broken = Unit
  Sound (bytes b) = (remote : S) → deserialize b ≡ some (state remote) → Valid remote

  -- The states that arrive before the first error.
  pub data Arrives (remote : S) : List ((S → S) × Frame Bytes) → Type 0 where
    now :
        {others : S → S} {b : Bytes} {rest : List ((S → S) × Frame Bytes)}
        → deserialize b ≡ some (state remote)
        → Arrives remote ((others, bytes b) ∷ rest)
    later :
        {others : S → S} {b : Bytes} {rest : List ((S → S) × Frame Bytes)} {msg : SyncMessage S}
        → deserialize b ≡ some msg
        → Arrives remote rest
        → Arrives remote ((others, bytes b) ∷ rest)

  Others-id : Others (λ s. s)
  Others-id s v = (v, Below-refl laws s)

  frame_fails :
      (others : S → S) (b : Bytes) (rest : List ((S → S) × Frame Bytes)) (s : S) (n : ℕ)
      → deserialize b ≡ none
      → serve_frames codec cvrdt s n ((others, bytes b) ∷ rest) ≡ (others s, n, Outcome.failed)
  unfolding serve_frames
  frame_fails others b rest s n e = rw (e, serve_frames)

  frame_hello :
      (others : S → S) (b : Bytes) (rest : List ((S → S) × Frame Bytes)) (s : S) (n : ℕ)
      (peer_id : Text)
      → deserialize b ≡ some (hello peer_id)
      → serve_frames codec cvrdt s n ((others, bytes b) ∷ rest)
        ≡ serve_frames codec cvrdt (others s) n rest
  unfolding serve_frames
  frame_hello others b rest s n peer_id e = rw (e, serve_frames)

  frame_state :
      (others : S → S) (b : Bytes) (rest : List ((S → S) × Frame Bytes)) (s remote : S) (n : ℕ)
      → deserialize b ≡ some (state remote)
      → serve_frames codec cvrdt s n ((others, bytes b) ∷ rest)
        ≡ serve_frames codec cvrdt (cvrdt.merge (others s) remote) (n + 1) rest
  unfolding serve_frames
  frame_state others b rest s remote n e = rw (e, serve_frames)

  -- What the loop leaves: a valid state above the one that it found and above all that arrived.
  abbrev pub Absorbs : S → List ((S → S) × Frame Bytes) → S → Type 0
  Absorbs s arriving final =
      Valid final
      × Below laws s final
      × ((remote : S) → Arrives remote arriving → Below laws remote final)

  not_broken :
      (remote : S) (f : S → S) (rest : List ((S → S) × Frame Bytes))
      → Arrives remote ((f, broken) ∷ rest)
      → ⊥
  not_broken remote f rest a = elim a [ ]

  Arrives-head :
      (remote : S) (f : S → S) (b : Bytes) (rest : List ((S → S) × Frame Bytes))
      → Arrives remote ((f, bytes b) ∷ rest)
      → (deserialize b ≡ some (state remote))
        ⊎ ((msg : SyncMessage S) × (deserialize b ≡ some msg) × Arrives remote rest)
  Arrives-head remote f b rest (now e) = inl e
  Arrives-head remote f b rest (later {msg} e a) = inr (msg, e, a)

  -- After a frame that was merged: what follows absorbs it too.
  Absorbs-state :
      (f : S → S) (b : Bytes) (rest : List ((S → S) × Frame Bytes)) (s remote final : S)
      → Others f
      → Valid s
      → Valid remote
      → deserialize b ≡ some (state remote)
      → Absorbs (cvrdt.merge (f s) remote) rest final
      → Absorbs s ((f, bytes b) ∷ rest) final
  Absorbs-state f b rest s remote final others v w e (ok, above, all) =
      let (valid, grew) = others s v in
      let merged = cvrdt.merge (f s) remote in
      let from_s =
        Below-trans laws s (f s) merged grew (Below-merge_left laws (f s) remote valid w) in
      (
        ok,
        Below-trans laws s merged final from_s above,
        λ r a. elim (Arrives-head r f b rest a) [
          | inl here ↦
              let same : remote ≡ r = cc (e, here) in
              rw (← same)
                (Below-trans laws remote merged final (Below-merge_right laws (f s) remote) above)
          | inr (msg, known, there) ↦ all r there
        ],
      )

  Absorbs-hello :
      (f : S → S) (b : Bytes) (rest : List ((S → S) × Frame Bytes)) (s final : S) (peer_id : Text)
      → Others f
      → Valid s
      → deserialize b ≡ some (hello peer_id)
      → Absorbs (f s) rest final
      → Absorbs s ((f, bytes b) ∷ rest) final
  Absorbs-hello f b rest s final peer_id others v e (ok, above, all) = (
    ok,
    Below-trans laws s (f s) final (others s v).1 above,
    λ r a. elim (Arrives-head r f b rest a) [
      | inl here ↦ cc (e, here)
      | inr (msg, known, there) ↦ all r there
    ],
  )

  Absorbs-nothing :
      (f : S → S) (b : Bytes) (rest : List ((S → S) × Frame Bytes)) (s : S)
      → Others f
      → Valid s
      → deserialize b ≡ none
      → Absorbs s ((f, bytes b) ∷ rest) (f s)
  Absorbs-nothing f b rest s others v e = (
    (others s v).0,
    (others s v).1,
    λ r a. elim (Arrives-head r f b rest a) [
      | inl here ↦ cc (e, here)
      | inr (msg, known, there) ↦ cc (e, known)
    ],
  )

  -- Where every state that arrives is valid, and whatever other tasks do to the state in between
  -- keeps it valid and only lets it grow, the connection leaves, from a valid state, a valid one that
  -- is above it and above every state that arrived before the first error.
  pub serve_frames-keeps :
      (s : S) (n : ℕ) (arriving : List ((S → S) × Frame Bytes))
      → Valid s
      → All (λ e. Others e.0 × Sound e.1) arriving
      → Valid (serve_frames codec cvrdt s n arriving).0
        × Below laws s (serve_frames codec cvrdt s n arriving).0
        × ((remote : S)
            → Arrives remote arriving
            → Below laws remote (serve_frames codec cvrdt s n arriving).0)
  unfolding serve_frames
  serve_frames-keeps s n [] v h = (v, Below-refl laws s, λ r a. elim a [ ])
  serve_frames-keeps s n ((f, broken) ∷ rest) v h =
      ((h.0.0 s v).0, (h.0.0 s v).1, λ r a. absurd (not_broken r f rest a))
  serve_frames-keeps s n ((f, bytes b) ∷ rest) v h = elim (Option-cases (deserialize b)) [
    | inl e ↦ rw (frame_fails f b rest s n e) (Absorbs-nothing f b rest s h.0.0 v e)
    | inr (hello peer_id, e) ↦ rw (frame_hello f b rest s n peer_id e) (
        Absorbs-hello f b rest s _ peer_id h.0.0 v e
          (serve_frames-keeps (f s) n rest (h.0.0 s v).0 h.1))
    | inr (state remote, e) ↦
        let w = h.0.1 remote e in
        rw (frame_state f b rest s remote n e) (
          Absorbs-state f b rest s remote _ h.0.0 v w e (
            serve_frames-keeps (cvrdt.merge (f s) remote) (n + 1) rest
              (laws.merge_valid (f s) remote (h.0.0 s v).0 w) h.1))
  ]
