-- ===== src/TodoApp/Main.antt =====
-- `main` of crates/todo-app/src/main.rs: the order in which the parts are built and started. Binding
-- is a parameter, a test of an address under the addresses that the program holds already; so are
-- `SocketAddr` and its parser.
use nettverksprogrammering_p.Base.{
  ℕ, ◌+◌, ◌≡◌, Bool, false, ◌&&◌, Option, none, some, List, [], ◌∷◌, ltb, if◌then◌else◌, unwrap_or,
  map, Bool-cases, inl, inr,
}
use nettverksprogrammering_p.Std.Text.{Text, codes}
use nettverksprogrammering_p.Std.Word.{Profile, dev, add as add_word}
use nettverksprogrammering_p.CrdtSync.Node
use nettverksprogrammering_p.CrdtSync.Node.{Task, spawn_listener, run}
use nettverksprogrammering_p.TodoApp.Config.{
  Environment, Config, u16_size, parse_env, replica_id_of, split_commas, peer_addrs, from_env,
}
use nettverksprogrammering_p.TodoApp.Config
use nettverksprogrammering_p.TodoApp.Process
use nettverksprogrammering_p.TodoApp.Process.{Process}
use nettverksprogrammering_p.TodoApp.Server
use nettverksprogrammering_p.TodoApp.Server.{Json}
use nettverksprogrammering_p.TodoApp.State

-- How `main` ends, or the process that it serves, with the tasks of the sync layer.
pub data Outcome (Message Addr : Type 0) : Type 0 where
  panicked : Outcome Message Addr
  failed : Outcome Message Addr
  serving : Process Message → List (Task Addr) → Outcome Message Addr

module _ (json : Json) {Addr : Type 0} (parse_addr : Text → Option Addr) (localhost : ℕ → Addr)
    (binds : List Addr → Addr → Bool) where
  open json use {Message}

  -- the process that the first steps of `main` leave, whose follower is spawned after the sync layer
  abbrev pub started : Config.Config Addr → Process Message
  started config =
      let app = Server.with_sync_notifier json (Server.new json (Config.start config).0) in
      record {
        app = app;
        owed = 0;
        taken = [];
        merged = 0;
        queued = 0;
        follower = Process.Follower.waiting;
        unshown = false;
      }

  -- With the sync layer's address taken no task is started; with the server's taken the tasks that
  -- were started end with the process. The listener of the sync layer holds its address when the
  -- server's is bound.
  unfoldable pub main : Profile → Environment → Outcome Message Addr
  unfolding Config.start run
  main p env = elim (from_env parse_addr localhost p env) [
    | none ↦ panicked
    | some config ↦ elim (run (binds []) (Config.start config).1) [
      | none ↦ failed
      | some tasks ↦
          if binds (config.sync_listen ∷ []) (localhost config.port)
          then serving (started config) tasks
          else failed
    ]
  ]

  abbrev env_peer_id : Environment → Text
  env_peer_id env = unwrap_or env.peer_id (codes "peer-1")

  abbrev env_port : Environment → ℕ
  env_port env = unwrap_or (parse_env env.port) 8080

  abbrev sync_port : Environment → ℕ
  sync_port env = unwrap_or (parse_env env.sync_port) (env_port env + 1000)

  abbrev peers : Environment → List Addr
  peers env = peer_addrs parse_addr localhost (split_commas (unwrap_or env.sync_peers []))

  -- A program of the dev profile panics exactly where the port leaves no room for the default sync
  -- port; otherwise it fails where the sync layer's address cannot be bound, or the server's while
  -- the first is held, and else serves.
  pub main_lem :
      (env : Environment)
      → main dev env ≡ (
          if ltb (env_port env + 1000) u16_size
          then if binds [] (localhost (sync_port env))
              && binds (localhost (sync_port env) ∷ []) (localhost (env_port env))
            then serving
                (Process.start json (State.new (env_peer_id env) (replica_id_of (env_peer_id env))))
                (Task.listener (localhost (sync_port env)) (env_peer_id env)
                  ∷ map (λ addr. Task.outgoing addr (env_peer_id env)) (peers env))
            else failed
          else panicked)
  unfolding main from_env add_word Config.start run spawn_listener Node.new Server.new
      Server.with_sync_notifier
  main_lem env = elim (Bool-cases (ltb (env_port env + 1000) u16_size)) [
    | inr big ↦ rw (big, main)
    | inl fits ↦ elim (Bool-cases (binds [] (localhost (sync_port env)))) [
      | inr taken ↦ rw (fits, main, taken)
      | inl free ↦
          elim (Bool-cases (binds (localhost (sync_port env) ∷ []) (localhost (env_port env)))) [
            | inr taken ↦ rw (fits, main, free, taken)
            | inl both ↦ rw (fits, main, free, both)
          ]
    ]
  ]
