-- ===== src/TodoApp/Process/Browsers.antt =====
-- One browser's connection in a process: `handle_socket` of crates/todo-app/src/server.rs
-- subscribes to the broadcasts, then reads and sends the current snapshot, and then passes on each
-- text that the channel delivers.
use mathlib.Core.List.{append-nil, append_assoc}
use nettverksprogrammering_p.Base.{
  ◌≡◌, refl, sym, ap, ◌∙◌, inl, inr, Bool, true, Option, some, List, [], ◌∷◌, ◌++◌, map, In, first,
  next, arith,
}
use nettverksprogrammering_p.Std.Word.{Profile}
use nettverksprogrammering_p.TodoApp.Server.{Json, send_current_snapshot, send_task}
use nettverksprogrammering_p.TodoApp.State.{snapshot}
use nettverksprogrammering_p.TodoApp.Process.{Process, Run}
use nettverksprogrammering_p.TodoApp.Process.Shown.{IsAtRest, Since, grown, news-Since}

module _ (json : Json) where
  open json use {Message, to_string}

  -- what the channel delivers to a socket that takes each text, while it misses none
  abbrev pub delivered : List Message → List (Option Message × Bool)
  delivered = map (λ t. (some t, true))

  pub send_task-delivered : (texts : List Message) → send_task json (delivered texts) ≡ texts
  unfolding send_task
  send_task-delivered [] = refl
  send_task-delivered (t ∷ texts) = ap (◌∷◌ t) (send_task-delivered texts)

  pub In-append_right :
      (xs : List Message) {ys : List Message} {m : Message} → In m ys → In m (xs ++ ys)
  In-append_right [] k = k
  In-append_right (x ∷ xs) k = next (In-append_right xs k)

  pub greeting_lem :
      (b : Process Message)
      → send_current_snapshot json b.app true ≡ to_string (snapshot b.app.inner)
  unfolding send_current_snapshot
  greeting_lem b = ground arith

  -- A browser subscribes in `u`, its first snapshot is read in `b`, and the process comes to rest in
  -- `n`. If the socket takes all texts and misses none, then the browser has been sent the snapshot
  -- of the state in `n`: as its first one, or as one of the texts since it subscribed.
  pub browser_gets_current :
      (p : Profile) (u b n : Process Message) (f m : Message)
      → Run json p u b
      → Run json p b n
      → IsAtRest n
      → send_current_snapshot json b.app true ≡ some f
      → to_string (snapshot n.app.inner) ≡ some m
      → (texts : List Message) × Since u.app.ws_tx n.app.ws_tx texts
        × In m (f ∷ send_task json (delivered texts))
  browser_gets_current p u b n f m before after rest greets made =
      let (early, since_u) = grown json p u.app.ws_tx ([], sym (append-nil u.app.ws_tx)) before in
      elim (news-Since json b p n m after rest made) [
        | inl same ↦
            let (texts, since) = grown json p u.app.ws_tx (early, since_u) after in
            let shown : to_string (snapshot b.app.inner) ≡ some m = rw (← same) made in
            let it : m ≡ f = cc (shown, greets, greeting_lem b) in (texts, since, rw it first)
        | inr (late, since_b, k) ↦ (
          early ++ late,
          since_b ∙ ap (λ ws. ws ++ late) since_u ∙ append_assoc u.app.ws_tx early late,
          next (rw (send_task-delivered (early ++ late)) (In-append_right early k)),
        )
      ]
