-- ===== src/TodoApp/Process/Shown.antt =====
-- What the browsers have been sent when a process is at rest.
use mathlib.Core.List.{append-nil, append_assoc}
use nettverksprogrammering_p.Base.{
  ℕ, suc, ◌≡◌, true, false, refl, sym, ◌⊎◌, inl, inr, some, List, [], ◌∷◌, ◌++◌, In, first, next,
  In-append_left, In-split, arith,
}
use nettverksprogrammering_p.Std.Word.{Profile}
use nettverksprogrammering_p.TodoApp.Server.{Json}
use nettverksprogrammering_p.TodoApp.State.{TodoState, snapshot}
use nettverksprogrammering_p.TodoApp.Process.{
  waiting, woken, ended, holding, Process, encode, start, Task, task, act, read, show, receive,
  abort, notify, wake, lag, look, tell, Run, here, next as next_step, send,
}

-- No task has yet to send, or was aborted since the last change, no update is queued, and the
-- follower waits.
pub record IsAtRest {Message : Type 0} (n : Process Message) : Type 0 where
  pub owed : n.owed ≡ 0
  pub taken : n.taken ≡ []
  pub merged : n.merged ≡ 0
  pub queued : n.queued ≡ 0
  pub waits : n.follower ≡ waiting
  pub unshown : n.unshown ≡ false

-- The texts from the second list on are these.
abbrev pub Since {ℓ} : {A : Type ℓ} → List A → List A → List A → Type ℓ
Since old now texts = now ≡ old ++ texts

module _ (json : Json) where
  open json use {Message, to_string}

  nothing_found : (s : TodoState) → ¬ In s []
  nothing_found s m = elim m [ ]

  In-encode :
      (s : TodoState) (xs : List Message) (m : Message)
      → to_string (snapshot s) ≡ some m
      → In m (xs ++ encode json s)
  unfolding encode
  In-encode s [] m e = rw (e, encode) first
  In-encode s (x ∷ xs) m e = next (In-encode s xs m e)

  grow_send :
      (old now : List Message) (s : TodoState)
      → (texts : List Message) × Since old now texts
      → (texts : List Message) × Since old (now ++ encode json s) texts
  grow_send old now s (texts, e) =
      (texts ++ encode json s, rw e (append_assoc old texts (encode json s)))

  grow_task :
      (old : List Message) (n o : Process Message)
      → Task json n o
      → (texts : List Message) × Since old n.app.ws_tx texts
      → (texts : List Message) × Since old o.app.ws_tx texts
  grow_task old n o (read e) g = g
  grow_task old n o (show before after s e) g = grow_send old n.app.ws_tx s g
  grow_task old n o (notify e) g = g
  grow_task old n o (wake f e le) g = g
  grow_task old n o (lag f lt) g = g
  grow_task old n o (look f) g = g
  grow_task old n o (tell s f) g = grow_send old n.app.ws_tx s g

  -- What is sent is never taken back.
  pub grown :
      (p : Profile) (old : List Message) {b n : Process Message}
      → (texts : List Message) × Since old b.app.ws_tx texts
      → Run json p b n
      → (texts : List Message) × Since old n.app.ws_tx texts
  grown p old g here = g
  grown p old g (next_step r (act msg e)) = grown p old g r
  grown p old g (next_step r (receive remote)) = grown p old g r
  grown p old g (next_step r (abort e)) = grown p old g r
  grown p old g (next_step {m} {o} r (task t)) = grow_task old m o t (grown p old g r)

  module _ (b : Process Message) where
    IsNews : Message → List Message → Type 0
    IsNews m now = (texts : List Message) × Since b.app.ws_tx now texts × In m texts

    -- The current state was sent after `b`, or a task is on its way to read or to send it.
    data Covered (n : Process Message) : Type 0 where
      unchanged : n.app.inner ≡ b.app.inner → Covered n
      owing : {k : ℕ} → n.owed ≡ suc k → Covered n
      taking : In n.app.inner n.taken → Covered n
      merging : {k : ℕ} → n.merged ≡ suc k → Covered n
      queueing : {k : ℕ} → n.queued ≡ suc k → Covered n
      waking : n.follower ≡ woken → Covered n
      telling : n.follower ≡ holding n.app.inner → Covered n
      deaf : n.follower ≡ ended → Covered n
      cut : n.unshown ≡ true → Covered n
      sent :
          ((m : Message) → to_string (snapshot n.app.inner) ≡ some m → IsNews m n.app.ws_tx)
          → Covered n

    still-IsNews :
        (m : Message) (now : List Message) (s : TodoState)
        → IsNews m now
        → IsNews m (now ++ encode json s)
    unfolding IsNews
    still-IsNews m now s (texts, e, k) = (
      texts ++ encode json s,
      rw e (append_assoc b.app.ws_tx texts (encode json s)),
      In-append_left (encode json s) k,
    )

    send-IsNews :
        (m : Message) (now : List Message) (s : TodoState)
        → (texts : List Message) × Since b.app.ws_tx now texts
        → to_string (snapshot s) ≡ some m
        → IsNews m (now ++ encode json s)
    unfolding IsNews
    send-IsNews m now s (texts, e) made = (
      texts ++ encode json s,
      rw e (append_assoc b.app.ws_tx texts (encode json s)),
      In-encode s texts m made,
    )

    cover_show :
        (n : Process Message) (before after : List TodoState) (s : TodoState)
        → n.taken ≡ before ++ s ∷ after
        → (texts : List Message) × Since b.app.ws_tx n.app.ws_tx texts
        → Covered n
        → Covered (record n { app = send json n.app s; taken = before ++ after })
    cover_show n before after s e g (unchanged h) = unchanged h
    cover_show n before after s e g (owing h) = owing h
    cover_show n before after s e g (merging h) = merging h
    cover_show n before after s e g (queueing h) = queueing h
    cover_show n before after s e g (waking h) = waking h
    cover_show n before after s e g (telling h) = telling h
    cover_show n before after s e g (deaf h) = deaf h
    cover_show n before after s e g (cut h) = cut h
    cover_show n before after s e g (sent h) = sent (λ m k. still-IsNews m n.app.ws_tx s (h m k))
    cover_show n before after s e g (taking h) =
        elim (In-split before after s n.app.inner (rw e at h)) [
          | inl it ↦ sent (λ m k. send-IsNews m n.app.ws_tx s g (rw (← it) k))
          | inr other ↦ taking other
        ]

    cover_tell :
        (n : Process Message) (s : TodoState)
        → n.follower ≡ holding s
        → (texts : List Message) × Since b.app.ws_tx n.app.ws_tx texts
        → Covered n
        → Covered (record n { app = send json n.app s; follower = waiting })
    cover_tell n s e g (unchanged h) = unchanged h
    cover_tell n s e g (owing h) = owing h
    cover_tell n s e g (taking h) = taking h
    cover_tell n s e g (merging h) = merging h
    cover_tell n s e g (queueing h) = queueing h
    cover_tell n s e g (waking h) = cc
    cover_tell n s e g (deaf h) = cc
    cover_tell n s e g (cut h) = cut h
    cover_tell n s e g (sent h) = sent (λ m k. still-IsNews m n.app.ws_tx s (h m k))
    cover_tell n s e g (telling h) =
        let it : n.app.inner ≡ s = cc in sent (λ m k. send-IsNews m n.app.ws_tx s g (rw (← it) k))

    cover_task :
        (n o : Process Message)
        → Task json n o
        → (texts : List Message) × Since b.app.ws_tx n.app.ws_tx texts
        → Covered n
        → Covered o
    cover_task n o (read e) g c = taking first
    cover_task n o (notify e) g c = queueing refl
    cover_task n o (wake f e le) g c = waking refl
    cover_task n o (lag f lt) g c = deaf refl
    cover_task n o (look f) g c = telling refl
    cover_task n o (show before after s e) g c = cover_show n before after s e g c
    cover_task n o (tell s e) g c = cover_tell n s e g c

    covered : (p : Profile) {n : Process Message} → Run json p b n → Covered n
    covered p here = unchanged refl
    covered p (next_step r (act msg e)) = owing refl
    covered p (next_step r (receive remote)) = merging refl
    covered p (next_step r (abort e)) = cut refl
    covered p (next_step {m} {o} r (task t)) =
        cover_task m o t (grown p b.app.ws_tx ([], sym (append-nil b.app.ws_tx)) r) (covered p r)

    -- When a process comes to rest, the snapshot of its state has been sent after `b`, unless the
    -- state is that of `b`.
    pub news-Since :
        (p : Profile) (n : Process Message) (m : Message)
        → Run json p b n
        → IsAtRest n
        → to_string (snapshot n.app.inner) ≡ some m
        → (n.app.inner ≡ b.app.inner)
          ⊎ ((texts : List Message) × Since b.app.ws_tx n.app.ws_tx texts × In m texts)
    unfolding IsNews
    news-Since p n m r rest e = elim (covered p r) [
      | unchanged h ↦ inl h
      | owing h ↦ absurd (omega (arith, rest.owed))
      | taking h ↦ absurd (nothing_found n.app.inner (rw rest.taken at h))
      | merging h ↦ absurd (omega (arith, rest.merged))
      | queueing h ↦ absurd (omega (arith, rest.queued))
      | waking h ↦ cc (rest.waits)
      | telling h ↦ cc (rest.waits)
      | deaf h ↦ cc (rest.waits)
      | cut h ↦ cc (rest.unshown)
      | sent h ↦ inr (h m e)
    ]

  -- In a process at rest, where no task has yet to send or was aborted since the last change, and no
  -- update is queued, and whose follower still waits, the browsers have been sent the snapshot of the current state, unless it is the one
  -- that the process started with, or cannot be serialized.
  pub rest_shows_current :
      (s₀ : TodoState) (p : Profile) (n : Process Message) (m : Message)
      → Run json p (start json s₀) n
      → IsAtRest n
      → to_string (snapshot n.app.inner) ≡ some m
      → (n.app.inner ≡ s₀) ⊎ In m n.app.ws_tx
  rest_shows_current s₀ p n m r rest e = elim (news-Since (start json s₀) p n m r rest e) [
    | inl h ↦ inl h
    | inr (texts, since, k) ↦ inr (rw since k)
  ]
