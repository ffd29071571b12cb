-- ===== src/TodoApp/State/Restart.antt =====
-- A replica that is started again counts its ids from 1, whatever it has merged since.
use nettverksprogrammering_p.Base.{
  ◌≡◌, ◌≢◌, refl, true, false, none, some, arith, ap, unwrap_or, In,
}
use nettverksprogrammering_p.Std.HashMap
use nettverksprogrammering_p.Std.HashMap.{get-new, contains_key}
use nettverksprogrammering_p.Std.Text.{Text, text_key, trim, is_empty}
use nettverksprogrammering_p.Std.Word.{Profile}
use nettverksprogrammering_p.CrdtCore.Clock.{ReplicaId}
use nettverksprogrammering_p.CrdtCore.GSet
use nettverksprogrammering_p.TodoApp.Protocol.{TodoItem}
use nettverksprogrammering_p.TodoApp.State.{TodoState, new, format_id, add, merge, todos}
use nettverksprogrammering_p.TodoApp.State.Apply.{HasRoom, is_visible, add_fits}
use nettverksprogrammering_p.TodoApp.State.Merge.{get-texts, get-added, get-removed}
use nettverksprogrammering_p.TodoApp.State.Shown.{todos_iff}

-- The list of the state has an item with this id and this text.
abbrev pub Shows : TodoState → Text → Text → Type 0
Shows s id text = (item : TodoItem) × In item (todos s) × (item.id ≡ id) × (item.text ≡ text)

visible-Shows :
    (s : TodoState) (id text : Text)
    → is_visible s id ≡ true
    → HashMap.get s.texts id ≡ some text
    → Shows s id text
visible-Shows s id text visible known =
    let item : TodoItem = record {
      id = id;
      text = text;
      completed = unwrap_or (HashMap.get s.completed id) false;
      created_by = unwrap_or (HashMap.get s.creators id) s.peer_id;
    } in
    (item, (todos_iff s item).1 (visible, known, refl, refl), refl, refl)

-- Lists that show different texts for one id are different.
texts_tell_apart :
    (s t : TodoState) (id a b : Text)
    → Shows s id a
    → HashMap.get t.texts id ≡ some b
    → b ≢ a
    → todos s ≢ todos t
texts_tell_apart s t id a b (item, shown, is_id, is_text) known differ same =
    let fields = (todos_iff t item).0 (rw same at shown) in
    differ (cc (fields.1, is_id, is_text, known))

-- A merge shows what either state shows, if neither has removed it.
merge-is_visible :
    (s x : TodoState) (id : Text)
    → is_visible s id ≡ true
    → is_visible x id ≡ true
    → is_visible (merge s x) id ≡ true
unfolding is_visible GSet.contains contains_key
merge-is_visible s x id h k = ground (arith, get-added s x id, get-removed s x id, h, k)

module _ (p : Profile) (peer_id : Text) (replica_id : ReplicaId) (x : TodoState) (text : Text)
    (room : HasRoom (merge (new peer_id replica_id) x))
    (filled : is_empty (trim text) ≡ false) where
  new-removed : HashMap.get (new peer_id replica_id).removed.elements (format_id peer_id 1) ≡ none
  unfolding new GSet.new
  new-removed = get-new {V = Unit} (format_id peer_id 1)

  restarted-is_visible :
      (s' : TodoState)
      → GSet.contains s'.added (format_id peer_id 1) ≡ true
      → s'.removed ≡ (merge (new peer_id replica_id) x).removed
      → is_visible x (format_id peer_id 1) ≡ true
      → is_visible s' (format_id peer_id 1) ≡ true
  unfolding is_visible GSet.contains contains_key
  restarted-is_visible s' added removed visible =
      let kept : HashMap.get s'.removed.elements (format_id peer_id 1)
          ≡ HashMap.get (merge (new peer_id replica_id) x).removed.elements (format_id peer_id 1) =
        ap (λ (r : GSet.GSet Text). HashMap.get r.elements (format_id peer_id 1)) removed in
      ground (
        arith,
        added,
        kept,
        visible,
        get-removed (new peer_id replica_id) x (format_id peer_id 1),
        new-removed,
      )

  -- A replica is started again, merges the state of a peer that shows a first todo of this replica,
  -- and adds a todo of another text, for which there is room. Then the replica shows the new text
  -- under the id of the first todo, and the peer the old one. After either merges the state of the
  -- other, each still shows its own text there, and their lists are different.
  pub restart_diverges :
      (old : Text)
      → HashMap.get x.texts (format_id peer_id 1) ≡ some old
      → is_visible x (format_id peer_id 1) ≡ true
      → old ≢ trim text
      → (s' : TodoState) × (add p (merge (new peer_id replica_id) x) text ≡ some s')
        × Shows s' (format_id peer_id 1) (trim text)
        × Shows x (format_id peer_id 1) old
        × Shows (merge s' x) (format_id peer_id 1) (trim text)
        × Shows (merge x s') (format_id peer_id 1) old
        × (todos (merge s' x) ≢ todos (merge x s'))
  unfolding merge new
  restart_diverges old known visible differ =
      let made = add_fits p (merge (new peer_id replica_id) x) text room filled in
      let s' : TodoState = made.0 in
      let id : Text = format_id peer_id 1 in
      let new_text : HashMap.get s'.texts id ≡ some (trim text) = ground (arith, made.2 id) in
      let here : is_visible s' id ≡ true =
        restarted-is_visible s' (ground (arith, made.5 id)) made.6 visible in
      let at_home : HashMap.get (merge s' x).texts id ≡ some (trim text) =
        ground (arith, get-texts s' x id, new_text) in
      let at_peer : HashMap.get (merge x s').texts id ≡ some old =
        ground (arith, get-texts x s' id) in
      let shows_new =
        visible-Shows (merge s' x) id (trim text) (merge-is_visible s' x id here visible) at_home in
      (
        s',
        made.1,
        visible-Shows s' id (trim text) here new_text,
        visible-Shows x id old visible known,
        shows_new,
        visible-Shows (merge x s') id old (merge-is_visible x s' id visible here) at_peer,
        texts_tell_apart (merge s' x) (merge x s') id (trim text) old shows_new at_peer differ,
      )

  -- If the first todo of the replica was deleted before it was started again, the todo that it adds
  -- is not visible, not even to itself.
  pub restart_hides :
      GSet.contains x.removed (format_id peer_id 1) ≡ true
      → (s' : TodoState) × (add p (merge (new peer_id replica_id) x) text ≡ some s')
        × (is_visible s' (format_id peer_id 1) ≡ false)
  unfolding is_visible GSet.contains contains_key new
  restart_hides gone =
      let s : TodoState = merge (new peer_id replica_id) x in
      let first_id : Text = format_id peer_id 1 in
      let made = add_fits p s text room filled in
      let kept : HashMap.get made.0.removed.elements first_id
          ≡ HashMap.get s.removed.elements first_id =
        ap (λ (r : GSet.GSet Text). HashMap.get r.elements first_id) made.6 in
      (
        made.0,
        made.1,
        ground (
          arith,
          kept,
          get-removed (new peer_id replica_id) x first_id,
          get-new {V = Unit} first_id,
        ),
      )
