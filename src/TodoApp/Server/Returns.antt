-- ===== src/TodoApp/Server/Returns.antt =====
-- The room that a browser's requests need, for the receiving task to return.
use mathlib.Core.Option
use nettverksprogrammering_p.Base.{
  ℕ, ◌+◌, ◌≡◌, refl, ◌∙◌, Option, none, some, List, [], ◌∷◌, length, arith, Option-cases, inl, inr,
}
use nettverksprogrammering_p.Std.Word.{Profile}
use nettverksprogrammering_p.TodoApp.Protocol.{ClientMessage}
use nettverksprogrammering_p.TodoApp.State.{TodoState}
use nettverksprogrammering_p.TodoApp.State.Total.{HasRoomFor, apply_room}
use nettverksprogrammering_p.TodoApp.Server.{Json, WsMessage, AppState, count_up, recv_task}
use nettverksprogrammering_p.TodoApp.Server.Broadcast.{
  requests, apply_all, progress, recv_task-apply_all,
}

apply_all_room :
    (p : Profile) (s : TodoState) (told : Option ℕ) (msgs : List ClientMessage) (n : ℕ)
    → HasRoomFor (n + length msgs) s
    → (s' : TodoState) × (told' : Option ℕ) × (apply_all p (s, told) msgs ≡ some (s', told'))
      × HasRoomFor n s'
unfolding apply_all
apply_all_room p s told [] n room = (
  s,
  told,
  refl,
  record { ticks = omega (arith, room.ticks); counts = omega (arith, room.counts) },
)
apply_all_room p s told (msg ∷ msgs) n room =
    let (s', returns, left) =
      apply_room p s msg (n + length msgs)
        (record { ticks = omega (arith, room.ticks); counts = omega (arith, room.counts) }) in
    let (s'', told', rest, last) = apply_all_room p s' (count_up told) msgs n left in
    (s'', told', rw (returns, apply_all) rest, last)

module _ (json : Json) where
  open json use {Message}

  -- In either profile, the receiving task of a browser ends without a panic if the clock entry and
  -- the ids of the replica have room for its requests and `n` more, and leaves room for those.
  pub recv_task-returns :
      (p : Profile) (self : AppState Message) (msgs : List (WsMessage Message)) (n : ℕ)
      → HasRoomFor (n + length (requests json msgs)) self.inner
      → (after : AppState Message) × (recv_task json p self msgs ≡ some after)
        × HasRoomFor n after.inner
  recv_task-returns p self msgs n room =
      let (s, told, runs, left) =
        apply_all_room p self.inner self.sync_notify (requests json msgs) n room in
      let ends : Option.map (progress json) (recv_task json p self msgs) ≡ some (s, told) =
        recv_task-apply_all json p msgs self ∙ runs in
      elim (Option-cases (recv_task json p self msgs)) [
        | inl panics ↦ let bad : none ≡ some (s, told) = rw panics at ends in cc
        | inr (after, returns) ↦
            let same : some (progress json after) ≡ some (s, told) = rw returns at ends in
            let state : s ≡ after.inner = ground arith in (after, returns, rw (← state) left)
      ]
