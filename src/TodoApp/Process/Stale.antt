-- ===== src/TodoApp/Process/Stale.antt =====
-- What the interleaving of two broadcasts does, and how the steps of a process stand to
-- `broadcast_snapshot`.
use mathlib.Core.List.{append-nil, append_assoc}
use nettverksprogrammering_p.Base.{
  ◌≡◌, refl, sym, ap, false, some, [], ◌∷◌, ◌++◌, Option-cases, inl, inr,
}
use nettverksprogrammering_p.Std.Word.{Profile}
use nettverksprogrammering_p.TodoApp.Protocol.{ClientMessage}
use nettverksprogrammering_p.TodoApp.Server.{Json, AppState, count_up, broadcast_snapshot}
use nettverksprogrammering_p.TodoApp.State.{TodoState, apply, snapshot}
use nettverksprogrammering_p.TodoApp.Process.{
  Process, encode, send, act, read, show, task, Run, here, next,
}

module _ (json : Json) where
  open json use {Message, to_string}

  -- `broadcast_snapshot` is a read and a send with nothing in between.
  pub broadcast_snapshot-send :
      (app : AppState Message) → broadcast_snapshot json app ≡ send json app app.inner
  unfolding encode broadcast_snapshot
  broadcast_snapshot-send app = elim (Option-cases (to_string (snapshot app.inner))) [
    | inl fails ↦
        rw (fails, broadcast_snapshot, encode)
          (ap (λ w. record app { ws_tx = w }) (sym (append-nil app.ws_tx)))
    | inr (message, made) ↦ rw (made, broadcast_snapshot, encode)
  ]

  encode-some :
      (s : TodoState) (t : Message) → to_string (snapshot s) ≡ some t → encode json s ≡ t ∷ []
  unfolding encode
  encode-some s t e = rw (e, encode)

  -- Two browsers operate one after the other, and their tasks send in the other order: the process
  -- is as it was but for the new state, the two notifications, a change that an aborted task had left
  -- unshown, and two texts, of which the newer shows the older state.
  pub newest_may_be_stale :
      (p : Profile) (n : Process Message) (msg msg' : ClientMessage) (s s' : TodoState)
      (t t' : Message)
      → apply p n.app.inner msg ≡ some s
      → apply p s msg' ≡ some s'
      → to_string (snapshot s) ≡ some t
      → to_string (snapshot s') ≡ some t'
      → (o : Process Message) × Run json p n o
        × (o ≡ record n {
          app = record n.app {
            inner = s';
            ws_tx = n.app.ws_tx ++ t' ∷ t ∷ [];
            sync_notify = count_up (count_up n.app.sync_notify);
          };
          unshown = false;
        })
  newest_may_be_stale p n msg msg' s s' t t' e e' f f' =
      let texts : (n.app.ws_tx ++ encode json s') ++ encode json s ≡ n.app.ws_tx ++ t' ∷ t ∷ [] =
        rw (encode-some s t f, encode-some s' t' f')
          (append_assoc n.app.ws_tx (t' ∷ []) (t ∷ [])) in
      let first_read = next (next here (act msg e)) (task (read refl)) in
      let second_read = next (next first_read (act msg' e')) (task (read refl)) in
      (
        _,
        next (next second_read (task (show [] (s ∷ n.taken) s' refl)))
            (task (show [] n.taken s refl)),
        ap
            (λ w. record n {
              app = record n.app {
                inner = s';
                ws_tx = w;
                sync_notify = count_up (count_up n.app.sync_notify);
              };
              unshown = false;
            })
            texts,
      )
