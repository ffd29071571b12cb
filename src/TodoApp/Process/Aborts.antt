-- ===== src/TodoApp/Process/Aborts.antt =====
-- What `handle_socket` of crates/todo-app/src/server.rs does when it aborts the receiving task of a
-- browser between an operation and its broadcast.
use nettverksprogrammering_p.Base.{◌≡◌, refl, some, List, [], ◌∷◌, ◌++◌, arith}
use nettverksprogrammering_p.Std.Word.{Profile}
use nettverksprogrammering_p.TodoApp.Protocol.{ClientMessage}
use nettverksprogrammering_p.TodoApp.Server.{Json, count_up}
use nettverksprogrammering_p.TodoApp.State.{TodoState, apply}
use nettverksprogrammering_p.TodoApp.Process.{
  Process, waiting, Task, read, show, notify, wake, lag, look, tell, act, abort, Run, here, next,
}
use nettverksprogrammering_p.TodoApp.Process.Shown.{IsAtRest}

module _ (json : Json) where
  open json use {Message}

  none_taken : (before after : List TodoState) (s : TodoState) → ¬ ([] ≡ before ++ s ∷ after)
  none_taken [] after s e = cc
  none_taken (x ∷ before) after s e = cc

  nothing_to_do :
      (n o : Process Message)
      → n.owed ≡ 0
      → n.taken ≡ []
      → n.merged ≡ 0
      → n.queued ≡ 0
      → n.follower ≡ waiting
      → ¬ Task json n o
  nothing_to_do n o owed taken merged queued waits (read e) = omega (arith, owed, e)
  nothing_to_do n o owed taken merged queued waits (show before after s e) =
      none_taken before after s (rw taken at e)
  nothing_to_do n o owed taken merged queued waits (notify e) = omega (arith, merged, e)
  nothing_to_do n o owed taken merged queued waits (wake f e le) = omega (arith, queued, e)
  nothing_to_do n o owed taken merged queued waits (lag f lt) = omega (arith, queued, lt)
  nothing_to_do n o owed taken merged queued waits (look f) = cc
  nothing_to_do n o owed taken merged queued waits (tell s f) = cc

  -- In a process at rest, a browser's operation is applied, and its task is aborted before it reads
  -- the state. Then the state is the new one and the sync layer is notified, but no text was sent to
  -- the browsers, and no task of the process has anything left to do.
  pub aborted_is_not_shown :
      (p : Profile) (n : Process Message) (msg : ClientMessage) (s : TodoState)
      → IsAtRest n
      → apply p n.app.inner msg ≡ some s
      → (o : Process Message) × Run json p n o
        × (o.app ≡ record n.app { inner = s; sync_notify = count_up n.app.sync_notify })
        × ((o' : Process Message) → ¬ Task json o o')
  aborted_is_not_shown p n msg s rest e = (
    _,
    next (next here (act msg e)) (abort refl),
    refl,
    λ o'. nothing_to_do _ o' rest.owed rest.taken rest.merged rest.queued rest.waits,
  )
