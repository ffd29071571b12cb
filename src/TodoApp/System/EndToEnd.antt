-- ===== src/TodoApp/System/EndToEnd.antt =====
-- Two peers that connect to each other, from the bytes on the wire to the todos that are shown.
use nettverksprogrammering_p.Base.{ℕ, ◌≡◌, ap, ◌∙◌, true, some, [], map}
use nettverksprogrammering_p.Std.Text.{Text}
use nettverksprogrammering_p.CrdtCore.Clock.{ReplicaId}
use nettverksprogrammering_p.CrdtCore.Traits.Delivery.{merge_all}
use nettverksprogrammering_p.CrdtSync.{Codec, hello, state, drive_outgoing, serve_frames}
use nettverksprogrammering_p.CrdtSync.Pushes.{pushed-first, pushed_turns}
use nettverksprogrammering_p.CrdtSync.Exchange.{IsFaithful, quiet, exchange_merges}
use nettverksprogrammering_p.TodoApp.State.{TodoState, merge, cvrdt, todos}
use nettverksprogrammering_p.TodoApp.System.{wire, System, Reach}
use nettverksprogrammering_p.TodoApp.System.Agreement.{exchange_shows_alike}

module _ (codec : Codec TodoState) (faithful : IsFaithful codec wire) where
  open codec use {Bytes, serialize}

  -- The state of a peer after it has read a connection on which another greeted and pushed once.
  pub after_push : Text → TodoState → TodoState → TodoState
  after_push sender_id sender local =
      (serve_frames codec cvrdt local 0
        (quiet codec (drive_outgoing codec sender_id true sender true []).0)).0

  after_push_lem :
      (sender_id : Text) (sender local : TodoState) (b c : Bytes)
      → serialize (hello sender_id) ≡ some b
      → serialize (state sender) ≡ some c
      → after_push sender_id sender local ≡ merge local (wire sender)
  unfolding after_push pushed_turns merge_all
  after_push_lem sender_id sender local b c e f =
      ap (λ r. r.0) (exchange_merges codec wire faithful cvrdt local sender_id true sender true [])
      ∙ ap (λ xs. merge_all cvrdt local (map wire xs))
          (pushed-first codec sender_id sender [] b c e f)

  -- Two peers of a reachable system whose peers have different names connect to each other, greet,
  -- and push their states once. If the codec reads back what it writes, less the skipped fields, and
  -- serializes the greetings and states, then both show the same list of todos after reading.
  connections_show_alike :
      (peer_id : ℕ → Text) (distinct : (i j : ℕ) → peer_id i ≡ peer_id j → i ≡ j)
      (replica_id : ℕ → ReplicaId) (s : System)
      → Reach peer_id replica_id s
      → (i j : ℕ) (greeting_i greeting_j push_i push_j : Bytes)
      → serialize (hello (peer_id i)) ≡ some greeting_i
      → serialize (hello (peer_id j)) ≡ some greeting_j
      → serialize (state (s.replica i)) ≡ some push_i
      → serialize (state (s.replica j)) ≡ some push_j
      → todos (after_push (peer_id j) (s.replica j) (s.replica i))
        ≡ todos (after_push (peer_id i) (s.replica i) (s.replica j))
  connections_show_alike peer_id distinct replica_id s r i j bi bj ci cj ei ej fi fj =
      rw
        (
          after_push_lem (peer_id j) (s.replica j) (s.replica i) bj cj ej fj,
          after_push_lem (peer_id i) (s.replica i) (s.replica j) bi ci ei fi,
        )
        (exchange_shows_alike peer_id distinct replica_id s r i j)
