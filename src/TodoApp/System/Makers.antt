-- ===== src/TodoApp/System/Makers.antt =====
-- Who made the todos that the states of the system name.
use nettverksprogrammering_p.Base.{
  ℕ, ◌≡◌, Bool, true, some, arith, In, Option-cases, inl, inr, sym, ◌∙◌,
}
use nettverksprogrammering_p.Std.HashMap
use nettverksprogrammering_p.Std.Text.{Text, text_key}
use nettverksprogrammering_p.CrdtCore.Clock.{ReplicaId}
use nettverksprogrammering_p.CrdtCore.GSet
use nettverksprogrammering_p.TodoApp.State.{TodoState}
use nettverksprogrammering_p.TodoApp.State.Ids.{format_id-injective}
use nettverksprogrammering_p.TodoApp.State.Tidy.{IsTidy}
use nettverksprogrammering_p.TodoApp.System.{System, Reach}
use nettverksprogrammering_p.TodoApp.System.Fresh.{Reach-AreTidy}
use nettverksprogrammering_p.TodoApp.System.Invariant.{Made, IsOwned}
use nettverksprogrammering_p.TodoApp.System.Sound.{Reach-IsSound}

-- One of the sets and maps of the state has the id.
pub data Mentions (x : TodoState) (id : Text) : Type 0 where
  as_added : GSet.contains x.added id ≡ true → Mentions x id
  as_removed : GSet.contains x.removed id ≡ true → Mentions x id
  with_text : {t : Text} → HashMap.get x.texts id ≡ some t → Mentions x id
  with_creator : {c : Text} → HashMap.get x.creators id ≡ some c → Mentions x id
  with_flag : {flag : Bool} → HashMap.get x.completed id ≡ some flag → Mentions x id

-- A state of the system: of a replica, or one that was sent.
pub data Known (s : System) : TodoState → Type 0 where
  of_replica : (i : ℕ) → Known s (s.replica i)
  of_sent : {x : TodoState} → In x s.sent → Known s x

-- The state has a text and a creator for the id: the creator is the replica that made the id, under a
-- number that it has counted, and this replica has the same text.
pub record KnowsMaker (peer_id : ℕ → Text) (s : System) (x : TodoState) (id : Text) : Type 0 where
  pub text : Text
  pub has_text : HashMap.get x.texts id ≡ some text
  pub made : Made peer_id s.replica id text
  pub credited : HashMap.get x.creators id ≡ some (peer_id made.maker)

-- An id that a tidy state mentions has a text.
mentioned_text :
    (x : TodoState) (id : Text)
    → IsTidy x
    → Mentions x id
    → (t : Text) × (HashMap.get x.texts id ≡ some t)
mentioned_text x id tidy m = elim (Option-cases (HashMap.get x.texts id)) [
  | inr known ↦ known
  | inl unknown ↦
      let k = tidy id unknown in
      elim m [
        | as_added e ↦ cc (k.added, e)
        | as_removed e ↦ cc (k.removed, e)
        | with_text e ↦ cc (k.text, e)
        | with_creator e ↦ cc (k.creator, e)
        | with_flag e ↦ cc (k.completed, e)
      ]
]

module _ (peer_id : ℕ → Text) where
  owned-KnowsMaker :
      (s : System) (x : TodoState) (id : Text)
      → IsTidy x
      → IsOwned peer_id s.replica x
      → Mentions x id
      → KnowsMaker peer_id s x id
  owned-KnowsMaker s x id tidy own m =
      let (t, known) = mentioned_text x id tidy m in
      let by = own.made id t known in
      elim (Option-cases (HashMap.get x.creators id)) [
        | inl none ↦ ground (arith, own.credited id)
        | inr (c, credit) ↦
            let (i, n, is_id, is_name) = own.created id c credit in
            let (names, _) =
              format_id-injective (peer_id i) (peer_id by.maker) n by.number
                (sym is_id ∙ by.is_id) in
            record { text = t; has_text = known; made = by; credited = cc (credit, is_name, names) }
      ]

  -- Where no two replicas have the same name: if any of the sets and maps of a state that a replica of
  -- a reachable system has or has sent has an id, then one replica made the id, under a number that it
  -- has counted, the state has the text that this replica has for it, and credits this replica.
  pub Reach-KnowsMaker :
      ((i j : ℕ) → peer_id i ≡ peer_id j → i ≡ j)
      → (replica_id : ℕ → ReplicaId) (s : System) (x : TodoState) (id : Text)
      → Reach peer_id replica_id s
      → Known s x
      → Mentions x id
      → KnowsMaker peer_id s x id
  Reach-KnowsMaker distinct replica_id s x id r (of_replica i) m =
      owned-KnowsMaker s (s.replica i) id ((Reach-AreTidy peer_id replica_id r).replica i)
        ((Reach-IsSound peer_id distinct replica_id r).owned i) m
  Reach-KnowsMaker distinct replica_id s x id r (of_sent sent) m =
      owned-KnowsMaker s x id ((Reach-AreTidy peer_id replica_id r).sent x sent)
        ((Reach-IsSound peer_id distinct replica_id r).sent_owned x sent) m
