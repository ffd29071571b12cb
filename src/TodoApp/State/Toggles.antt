-- ===== src/TodoApp/State/Toggles.antt =====
-- A completed todo that is toggled back, and the merges after that.
use nettverksprogrammering_p.Base.{◌≡◌, true, false, some, arith}
use nettverksprogrammering_p.Std.HashMap
use nettverksprogrammering_p.Std.Text.{Text, text_key}
use nettverksprogrammering_p.Std.Word.{Profile}
use nettverksprogrammering_p.TodoApp.State.{TodoState, toggle, merge}
use nettverksprogrammering_p.TodoApp.State.Apply.{HasRoom, is_visible, toggle_fits}
use nettverksprogrammering_p.TodoApp.State.Merge.{get-completed}

-- A replica toggles a visible todo that is completed, and so clears its flag. If a peer has seen it
-- completed, then after either of the two merges the state of the other the flag is set again.
pub untoggle_undone :
    (p : Profile) (s peer : TodoState) (id : Text)
    → HasRoom s
    → is_visible s id ≡ true
    → HashMap.get s.completed id ≡ some true
    → HashMap.get peer.completed id ≡ some true
    → (s' : TodoState) × (toggle p s id ≡ some s')
      × (HashMap.get s'.completed id ≡ some false)
      × (HashMap.get (merge s' peer).completed id ≡ some true)
      × (HashMap.get (merge peer s').completed id ≡ some true)
untoggle_undone p s peer id room visible done seen =
    let (s', returns, flags, _, _, _) = toggle_fits p s id room visible in
    let cleared : HashMap.get s'.completed id ≡ some false = ground (arith, flags id) in
    (
      s',
      returns,
      cleared,
      ground (arith, get-completed s' peer id),
      ground (arith, get-completed peer s' id),
    )
