-- ===== src/TodoApp/Protocol.antt =====
-- crates/todo-app/src/protocol.rs: the messages between the browser and the server.
use nettverksprogrammering_p.Base.{ℕ, Bool, List}
use nettverksprogrammering_p.Std.HashMap.{HashMap}
use nettverksprogrammering_p.Std.Text.{Text, text_key}

pub record TodoItem : Type 0 where
  pub id : Text
  pub text : Text
  pub completed : Bool
  pub created_by : Text

pub record PeerSnapshot : Type 0 where
  pub id : Text
  pub name : Text
  pub online : Bool
  pub clock : HashMap Text ℕ
  pub todos : List TodoItem

pub data ServerMessage : Type 0 where
  snapshot : Text → List PeerSnapshot → ServerMessage

pub data ClientMessage : Type 0 where
  add : Text → ClientMessage
  toggle : Text → ClientMessage
  delete : Text → ClientMessage
  resync : ClientMessage
