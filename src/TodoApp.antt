-- ===== src/TodoApp.antt =====
-- crates/todo-app/src: the todo list that is served to browsers and synchronised between peers.
pub mod Cluster
pub mod Config
pub mod Main
pub mod Network
pub mod Process
pub mod Protocol
pub mod Server
pub mod State
pub mod System
