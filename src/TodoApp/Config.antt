-- ===== src/TodoApp/Config.antt =====
-- `Config` of crates/todo-app/src/main.rs, read from the environment, and what `main` builds from it.
-- `SocketAddr` is a parameter, with its parser and the address of a port on 127.0.0.1.
pub mod Laws
use nettverksprogrammering_p.Base.{
  ℕ, ◌^◌, Bool, true, false, not, Option, none, some, List, [], ◌∷◌, ◌==◌, if◌then◌else◌, ◌>>=◌,
  unwrap_or,
}
use nettverksprogrammering_p.Std.Text.{Text, codes, trim, is_empty}
use nettverksprogrammering_p.Std.Text.Decimal.{parse, is_ascii_digit}
use nettverksprogrammering_p.Std.Word.{Profile, u64_size, add as add_word}
use nettverksprogrammering_p.CrdtCore.Clock.{ReplicaId}
use nettverksprogrammering_p.CrdtSync.Node
use nettverksprogrammering_p.CrdtSync.Node.{SyncNode}
use nettverksprogrammering_p.TodoApp.State
use nettverksprogrammering_p.TodoApp.State.{TodoState}

abbrev pub u16_size : ℕ
u16_size = 2 ^ 16

-- What `std::env::var` gives for each variable; `none` is an error.
pub record Environment : Type 0 where
  pub peer_id : Option Text
  pub port : Option Text
  pub static_dir : Option Text
  pub sync_port : Option Text
  pub sync_peers : Option Text

pub record Config (Addr : Type 0) : Type 0 where
  pub peer_id : Text
  pub replica_id : ReplicaId
  pub port : ℕ
  pub static_dir : Text
  pub sync_listen : Addr
  pub sync_peers : List Addr

-- `parse_env::<u16>`
unfoldable pub parse_env : Option Text → Option ℕ
unfolding parse
parse_env var = do s ← var; parse u16_size s

-- `filter` by a Boolean test.
abbrev pub keep : (ℕ → Bool) → Text → Text
keep p [] = []
keep p (c ∷ s) = if p c then c ∷ keep p s else keep p s

-- the number that the digits of the peer's id spell, 1 if they spell none
unfoldable pub replica_id_of : Text → ReplicaId
unfolding parse is_ascii_digit
replica_id_of peer_id = unwrap_or (parse u64_size (keep is_ascii_digit peer_id)) 1

abbrev cons_char : ℕ → List Text → List Text
cons_char c [] = (c ∷ []) ∷ []
cons_char c (part ∷ parts) = (c ∷ part) ∷ parts

-- `split(',')`: one part more than there are commas
unfoldable pub split_commas : Text → List Text
split_commas [] = [] ∷ []
split_commas (c ∷ s) =
    let parts = split_commas s in if c == b',' then [] ∷ parts else cons_char c parts

module _ {Addr : Type 0} (parse_addr : Text → Option Addr) (localhost : ℕ → Addr) where
  unfoldable pub peer_addrs : List Text → List Addr
  unfolding trim
  peer_addrs [] = []
  peer_addrs (s ∷ parts) =
      let rest = peer_addrs parts in
      if not (is_empty (trim s))
      then elim (parse_addr (trim s)) [ none ↦ rest | some addr ↦ addr ∷ rest ]
      else rest

  -- `none` is a panic. The default of the sync port is computed whether or not it is used.
  unfoldable pub from_env : Profile → Environment → Option (Config Addr)
  unfolding parse_env replica_id_of add_word split_commas peer_addrs
  from_env p env =
      let peer_id = unwrap_or env.peer_id (codes "peer-1") in
      let port = unwrap_or (parse_env env.port) 8080 in
      do
        default_port ← add_word u16_size p port 1000
        some (record {
          peer_id = peer_id;
          replica_id = replica_id_of peer_id;
          port = port;
          static_dir = unwrap_or env.static_dir (codes "crates/todo-app/static");
          sync_listen = localhost (unwrap_or (parse_env env.sync_port) default_port);
          sync_peers = peer_addrs (split_commas (unwrap_or env.sync_peers []));
        })

-- the state and the sync node that `main` starts with
unfoldable pub start : {Addr : Type 0} → Config Addr → TodoState × SyncNode Addr
unfolding State.new Node.new
start config = (
  State.new config.peer_id config.replica_id,
  Node.new config.peer_id config.sync_listen config.sync_peers,
)
