-- ===== src/TodoApp/Cluster/Meeting.antt =====
-- Two peers that are configured for each other: a connection between them, and a push over it.
use nettverksprogrammering_p.Base.{
  ℕ, ◌≡◌, refl, ◌⊎◌, inl, inr, true, false, some, List, [], ◌∷◌, ◌++◌, In, first, next, In-cases,
  In-middle, In-position, Bool-cases, ℕ_discrete,
}
use nettverksprogrammering_p.Std.Text.{Text}
use nettverksprogrammering_p.CrdtSync.{Codec, SyncMessage, hello, state}
use nettverksprogrammering_p.CrdtSync.Exchange.{IsFaithful, Reads, Reads-snoc}
use nettverksprogrammering_p.TodoApp.Server.{Json}
use nettverksprogrammering_p.TodoApp.State.{TodoState}
use nettverksprogrammering_p.TodoApp.System.{wire}
use nettverksprogrammering_p.TodoApp.Cluster.{
  Connection, Net, connect, push, Works, nothing, and_work,
}
use nettverksprogrammering_p.TodoApp.Cluster.Links.{stays, Works-trans, ReadsAll, read_all}

-- The connection is one on which `drive_outgoing` runs from the one to the other.
pub record IsLink {Bytes : Type 0} (i j : ℕ) (c : Connection Bytes) : Type 0 where
  pub from : c.sender ≡ i
  pub to : c.receiver ≡ j
  pub is_open : c.is_open ≡ true

-- What bincode documents: messages of this kind can be serialized.
pub record IsTotal {S : Type 0} (codec : Codec S) : Type 0 where
  pub bytes_of : (msg : SyncMessage S) → (b : codec.Bytes) × (codec.serialize msg ≡ some b)

module _ {Bytes : Type 0} where
  IsLink-cases :
      (i j : ℕ) (c : Connection Bytes)
      → IsLink i j c ⊎ (c.sender ≡ i → c.receiver ≡ j → c.is_open ≡ false)
  IsLink-cases i j c = elim (ℕ_discrete c.sender i) [
    | no other ↦ inr (λ s r. absurd (other s))
    | yes s ↦ elim (ℕ_discrete c.receiver j) [
      | no other ↦ inr (λ _ r. absurd (other r))
      | yes r ↦ elim (Bool-cases c.is_open) [
        | inl opened ↦ inl (record { from = s; to = r; is_open = opened })
        | inr shut ↦ inr (λ _ _. shut)
      ]
    ]
  ]

  -- A list of connections has a link, or the way is free.
  find-IsLink :
      (i j : ℕ) (cs : List (Connection Bytes))
      → ((c : Connection Bytes) × In c cs × IsLink i j c)
        ⊎ ((c : Connection Bytes) → In c cs → c.sender ≡ i → c.receiver ≡ j → c.is_open ≡ false)
  find-IsLink i j [] = inr (λ c m. elim m [ ])
  find-IsLink i j (d ∷ cs) = elim (IsLink-cases i j d) [
    | inl link ↦ inl (d, first, link)
    | inr shut ↦ elim (find-IsLink i j cs) [
      | inl (c, m, link) ↦ inl (c, next m, link)
      | inr free ↦ inr (λ c m. elim (In-cases m) [ inl same ↦ rw same shut | inr k ↦ free c k ])
    ]
  ]

module _ (json : Json) (codec : Codec TodoState) (total : IsTotal codec)
    (faithful : IsFaithful codec wire) (peer_id : ℕ → Text) (peers : ℕ → List ℕ) where
  open codec use {Bytes}

  -- The processes are as they were, and there is a link between the two.
  pub record Linked (cl : Net json codec) (i j : ℕ) : Type 0 where
    pub result : Net json codec
    pub run : Works json codec peer_id peers cl result
    pub same_process : result.process ≡ cl.process
    pub link : Connection Bytes
    pub is_there : In link result.connections
    pub is_link : IsLink i j link
    pub kept : (d : Connection Bytes) → In d cl.connections → In d result.connections

  pub get-Linked : (cl : Net json codec) (i j : ℕ) → In j (peers i) → Linked cl i j
  get-Linked cl i j known = elim (find-IsLink i j cl.connections) [
    | inl (c, m, link) ↦ record {
      result = cl;
      run = nothing;
      same_process = refl;
      link = c;
      is_there = m;
      is_link = link;
      kept = λ d k. k;
    }
    | inr free ↦
        let (b, e) = total.bytes_of (hello (peer_id i)) in
        let c : Connection Bytes = record {
          sender = i;
          receiver = j;
          is_open = true;
          frames = b ∷ [];
        } in
        record {
          result = record cl { connections = c ∷ cl.connections };
          run = and_work nothing (connect i j known free e);
          same_process = refl;
          link = c;
          is_there = first;
          is_link = record { from = refl; to = refl; is_open = refl };
          kept = λ d k. next k;
        }
  ]

  -- The state of the sender goes out on an open connection, and all that is on it is read.
  pub push_and_read :
      (cl : Net json codec) (c : Connection Bytes) (xs : List TodoState)
      → In c cl.connections
      → c.is_open ≡ true
      → Reads codec c.frames xs
      → ReadsAll json codec peer_id peers cl c (xs ++ wire (cl.process c.sender).app.inner ∷ [])
  push_and_read cl c xs m opened r =
      let s : TodoState = (cl.process c.sender).app.inner in
      let (b, e) = total.bytes_of (state s) in
      let (before, after, at) = In-position m in
      let c' : Connection Bytes = record c { frames = c.frames ++ b ∷ [] } in
      let cl' : Net json codec = record cl { connections = before ++ c' ∷ after } in
      let more =
        read_all json codec peer_id peers c'.frames (xs ++ wire s ∷ []) cl' c'
          (Reads-snoc codec b (wire s) (faithful.reads (state s) b e) r) (In-middle before after c')
          refl in
      let d = more.delivered in
      record {
        result = more.result;
        run =
            Works-trans json codec peer_id peers
              (and_work nothing (push c before after at opened e)) more.run;
        delivered = record {
          inner = d.inner;
          same_follower = d.same_follower;
          same_queued = d.same_queued;
          still_shown = d.still_shown;
          now_shown = d.now_shown;
          others = d.others;
          drained = d.drained;
          kept = λ x ne k. d.kept x ne (stays cl.connections before after c c' x at ne k);
        };
      }
