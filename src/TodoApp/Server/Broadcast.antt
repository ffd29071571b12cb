-- ===== src/TodoApp/Server/Broadcast.antt =====
-- What the browsers are sent.
use mathlib.Core.Option
use nettverksprogrammering_p.Base.{
  ℕ, ◌≡◌, refl, ap, ◌∙◌, Option, none, some, List, [], ◌∷◌, ◌++◌, ◌>>=◌, Option-cases, inl, inr,
}
use nettverksprogrammering_p.Std.Word.{Profile}
use nettverksprogrammering_p.TodoApp.Protocol.{ClientMessage}
use nettverksprogrammering_p.TodoApp.State.{TodoState, apply, snapshot}
use nettverksprogrammering_p.TodoApp.Server.{
  Json, WsMessage, text, close, other, Received, update, lagged, closed, AppState, count_up,
  broadcast_snapshot, apply_and_broadcast, handle_text, recv_task, follow_remote,
}

abbrev push_parsed : Option ClientMessage → List ClientMessage → List ClientMessage
push_parsed none msgs = msgs
push_parsed (some msg) msgs = msg ∷ msgs

-- Operations one after the other, with the number of notifications that the sync layer is sent.
unfoldable pub apply_all :
    Profile → TodoState × Option ℕ → List ClientMessage → Option (TodoState × Option ℕ)
apply_all p before [] = some before
apply_all p (s, told) (msg ∷ msgs) = do s' ← apply p s msg; apply_all p (s', count_up told) msgs

module _ (json : Json) where
  open json use {Message, to_string, from_str}

  -- The messages of a browser that reach the state: those that parse, before it closes.
  unfoldable pub requests : List (WsMessage Message) → List ClientMessage
  requests [] = []
  requests (close ∷ rest) = []
  requests (other ∷ rest) = requests rest
  requests (text content ∷ rest) = push_parsed (from_str content) (requests rest)

  -- what the server's state keeps of an operation: the replica, and what the sync layer is told
  abbrev pub progress : AppState Message → TodoState × Option ℕ
  progress self = (self.inner, self.sync_notify)

  -- An operation of a browser is applied, the sync layer is notified once if it is attached, and
  -- every browser is sent the snapshot of the new state, if it can be serialized.
  pub apply_and_broadcast_lem :
      (p : Profile) (self : AppState Message) (msg : ClientMessage) (s : TodoState) (t : Message)
      → apply p self.inner msg ≡ some s
      → to_string (snapshot s) ≡ some t
      → apply_and_broadcast json p self msg
        ≡ some (record {
          inner = s;
          ws_tx = self.ws_tx ++ t ∷ [];
          sync_notify = count_up self.sync_notify;
        })
  unfolding apply_and_broadcast broadcast_snapshot
  apply_and_broadcast_lem p self msg s t e f = rw (e, apply_and_broadcast, f, broadcast_snapshot)

  progress-broadcast_snapshot :
      (self : AppState Message) → progress (broadcast_snapshot json self) ≡ progress self
  unfolding broadcast_snapshot
  progress-broadcast_snapshot self = elim (Option-cases (to_string (snapshot self.inner))) [
    | inl fails ↦ rw (fails, broadcast_snapshot)
    | inr (message, made) ↦ rw (made, broadcast_snapshot)
  ]

  -- What a browser sends has the effect of its well-formed messages, in their order: malformed ones,
  -- other kinds, and what follows a close change nothing. Each applied message notifies the sync
  -- layer once. The task panics only where one of those operations does.
  pub recv_task-apply_all :
      (p : Profile) (msgs : List (WsMessage Message)) (self : AppState Message)
      → Option.map progress (recv_task json p self msgs)
        ≡ apply_all p (progress self) (requests msgs)
  unfolding recv_task handle_text apply_and_broadcast apply_all requests
  recv_task-apply_all p [] self = refl
  recv_task-apply_all p (close ∷ rest) self = refl
  recv_task-apply_all p (other ∷ rest) self = recv_task-apply_all p rest self
  recv_task-apply_all p (text content ∷ rest) self = elim (Option-cases (from_str content)) [
    | inl bad ↦ rw (bad, handle_text) (recv_task-apply_all p rest self)
    | inr (msg, good) ↦ elim (Option-cases (apply p self.inner msg)) [
      | inl panics ↦ rw (good, handle_text, panics)
      | inr (s, applied) ↦
          let after = record self { inner = s; sync_notify = count_up self.sync_notify } in
          rw (good, handle_text, applied)
            (recv_task-apply_all p rest (broadcast_snapshot json after)
              ∙ ap (λ before. apply_all p before (requests rest))
                  (progress-broadcast_snapshot after))
    ]
  ]

  -- After the channel reports that updates were missed, no later merge from a peer is shown to the
  -- browsers by this task, and no update after it is read.
  follow_remote-lagged :
      (seen later : List (Received × TodoState)) (s : TodoState) (self : AppState Message)
      → follow_remote json self (seen ++ (lagged, s) ∷ later) ≡ follow_remote json self seen
  unfolding follow_remote
  follow_remote-lagged [] later s self = refl
  follow_remote-lagged ((update, t) ∷ seen) later s self = follow_remote-lagged seen later s _
  follow_remote-lagged ((lagged, t) ∷ seen) later s self = refl
  follow_remote-lagged ((closed, t) ∷ seen) later s self = refl
