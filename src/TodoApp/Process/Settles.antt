-- ===== src/TodoApp/Process/Settles.antt =====
-- How the tasks of a process finish what they have begun.
use nettverksprogrammering_p.Base.{
  ℕ, zero, suc, false, ◌≤◌, ◌≡◌, ◌≢◌, refl, ◌∙◌, ◌⊎◌, some, List, [], ◌∷◌, In, arith,
}
use nettverksprogrammering_p.Std.Word.{Profile}
use nettverksprogrammering_p.TodoApp.Server.{Json}
use nettverksprogrammering_p.TodoApp.State.{TodoState, snapshot}
use nettverksprogrammering_p.TodoApp.Process.{
  Follower, waiting, woken, ended, holding, Process, channel_capacity, send, start, read, show,
  notify, wake, look, tell, task, Tasks, idle, then_task, Run, next,
}
use nettverksprogrammering_p.TodoApp.Process.Shown.{IsAtRest, rest_shows_current}

module _ (json : Json) where
  open json use {Message, to_string}

  pub Tasks-trans : {n m o : Process Message} → Tasks json n m → Tasks json m o → Tasks json n o
  Tasks-trans r idle = r
  Tasks-trans r (then_task r' t) = then_task (Tasks-trans r r') t

  tasks-Run :
      {n m o : Process Message} (p : Profile) → Run json p n m → Tasks json m o → Run json p n o
  tasks-Run p r idle = r
  tasks-Run p r (then_task r' t) = next (tasks-Run p r r') (task t)

  -- The process comes to rest without input, and with the state that it has.
  pub record Settles (n : Process Message) : Type 0 where
    pub result : Process Message
    pub run : Tasks json n result
    pub same_inner : result.app.inner ≡ n.app.inner
    pub rests : IsAtRest result

  tasks-Settles :
      (n m : Process Message) → Tasks json n m → m.app.inner ≡ n.app.inner → Settles m → Settles n
  tasks-Settles n m r same h = record {
    result = h.result;
    run = Tasks-trans r h.run;
    same_inner = h.same_inner ∙ same;
    rests = h.rests;
  }

  -- The browsers' tasks send what they have read.
  show_taken :
      (ss : List TodoState) (n : Process Message)
      → n.taken ≡ ss
      → n.owed ≡ 0
      → n.merged ≡ 0
      → n.queued ≡ 0
      → n.follower ≡ waiting
      → n.unshown ≡ false
      → Settles n
  show_taken [] n taken owed merged queued waits unshown = record {
    result = n;
    run = idle;
    same_inner = refl;
    rests = record {
      owed = owed;
      taken = taken;
      merged = merged;
      queued = queued;
      waits = waits;
      unshown = unshown;
    };
  }
  show_taken (s ∷ ss) n taken owed merged queued waits unshown =
      tasks-Settles n (record n { app = send json n.app s; taken = ss })
        (then_task idle (show [] ss s taken)) refl
        (show_taken ss _ refl owed merged queued waits unshown)

  -- The browsers' tasks that have not read the state do so.
  read_owed :
      (k : ℕ) (n : Process Message)
      → n.owed ≡ k
      → n.merged ≡ 0
      → n.queued ≡ 0
      → n.follower ≡ waiting
      → n.unshown ≡ false
      → Settles n
  read_owed zero n owed merged queued waits unshown =
      show_taken n.taken n refl owed merged queued waits unshown
  read_owed (suc k) n owed merged queued waits unshown =
      tasks-Settles n (record n { owed = k; taken = n.app.inner ∷ n.taken })
        (then_task idle (read owed)) refl (read_owed k _ refl merged queued waits unshown)

  -- The follower takes one update, and shows the state.
  follow_once :
      (k : ℕ) (n : Process Message)
      → n.follower ≡ waiting
      → n.queued ≡ suc k
      → suc k ≤ channel_capacity
      → Tasks json n
          (record n { app = send json n.app n.app.inner; queued = k; follower = waiting })
  follow_once k n waits queued fits =
      then_task (then_task (then_task idle (wake waits queued (omega (arith, queued)))) (look refl))
        (tell n.app.inner refl)

  -- The connections report what they have merged, and the follower keeps up.
  notify_merged :
      (k : ℕ) (n : Process Message)
      → n.merged ≡ k
      → n.queued ≡ 0
      → n.follower ≡ waiting
      → n.unshown ≡ false
      → Settles n
  notify_merged zero n merged queued waits unshown =
      read_owed n.owed n refl merged queued waits unshown
  notify_merged (suc k) n merged queued waits unshown =
      let m : Process Message = record n { merged = k; queued = suc n.queued } in
      tasks-Settles n
        (record n { app = send json n.app n.app.inner; merged = k; follower = waiting })
        (Tasks-trans (then_task idle (notify merged))
          (follow_once n.queued m waits refl (omega (arith, queued))))
        refl (notify_merged k _ refl queued refl unshown)

  -- The follower takes the updates in the channel.
  follow_queued :
      (k : ℕ) (n : Process Message)
      → n.queued ≡ k
      → k ≤ channel_capacity
      → n.follower ≡ waiting
      → n.unshown ≡ false
      → Settles n
  follow_queued zero n queued fits waits unshown =
      notify_merged n.merged n refl queued waits unshown
  follow_queued (suc k) n queued fits waits unshown =
      tasks-Settles n
        (record n { app = send json n.app n.app.inner; queued = k; follower = waiting })
        (follow_once k n waits queued fits) refl
        (follow_queued k _ refl (omega (arith, fits)) refl unshown)

  pub comes_to_rest :
      (f : Follower) (n : Process Message)
      → n.follower ≡ f
      → f ≢ ended
      → n.queued ≤ channel_capacity
      → n.unshown ≡ false
      → Settles n
  comes_to_rest waiting n e alive fits unshown = follow_queued n.queued n refl fits e unshown
  comes_to_rest woken n e alive fits unshown =
      tasks-Settles n (record n { app = send json n.app n.app.inner; follower = waiting })
        (then_task (then_task idle (look e)) (tell n.app.inner refl)) refl
        (follow_queued n.queued _ refl fits refl unshown)
  comes_to_rest (holding s) n e alive fits unshown =
      tasks-Settles n (record n { app = send json n.app s; follower = waiting })
        (then_task idle (tell s e)) refl (follow_queued n.queued _ refl fits refl unshown)
  comes_to_rest ended n e alive fits unshown = absurd (alive refl)

  -- A process whose follower has not ended, whose channel has not lost an update, and of which no
  -- task was aborted since the last change, can come to rest without input, and keeps its state. Then the browsers have been sent the snapshot of it,
  -- unless it is the state that the process started with, or cannot be serialized.
  current_gets_shown :
      (p : Profile) (s₀ : TodoState) (n : Process Message) (m : Message)
      → Run json p (start json s₀) n
      → n.follower ≢ ended
      → n.queued ≤ channel_capacity
      → n.unshown ≡ false
      → to_string (snapshot n.app.inner) ≡ some m
      → (o : Process Message) × Tasks json n o
        × IsAtRest o
        × (o.app.inner ≡ n.app.inner)
        × ((n.app.inner ≡ s₀) ⊎ In m o.app.ws_tx)
  current_gets_shown p s₀ n m r alive fits unshown made =
      let h = comes_to_rest n.follower n refl alive fits unshown in
      let o : Process Message = h.result in
      let rest = h.rests in
      let shown : (o.app.inner ≡ s₀) ⊎ In m o.app.ws_tx =
        rest_shows_current json s₀ p o m (tasks-Run p r h.run) rest (rw h.same_inner made) in
      (o, h.run, rest, h.same_inner, rw h.same_inner at shown)
