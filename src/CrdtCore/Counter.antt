-- ===== src/CrdtCore/Counter.antt =====
-- crates/crdt-core/src/counter.rs: the grow-only counter. The proofs are in the modules below.
pub mod Merge
pub mod Value
pub mod Deliveries
pub mod Tests
use nettverksprogrammering_p.Base.{
  ℕ, ◌==◌, Bool, max, Option, none, some, List, [], ◌∷◌, map, ◌>>=◌, unwrap_or, length,
}
use nettverksprogrammering_p.Std.HashMap
use nettverksprogrammering_p.Std.HashMap.{HashMap, nat_key}
use nettverksprogrammering_p.Std.HashMap.Equality.{eq}
use nettverksprogrammering_p.Std.HashMap.Loop.{for_entries}
use nettverksprogrammering_p.Std.Word.{Profile, u64_size, add, sum_from}
use nettverksprogrammering_p.CrdtCore.Clock.{ReplicaId}
use nettverksprogrammering_p.CrdtCore.Traits.{CvRdt}

pub record GCounter : Type 0 where
  pub counts : HashMap ReplicaId ℕ

-- The derived `==`.
unfoldable pub equals : GCounter → GCounter → Bool
equals self other = eq ◌==◌ self.counts other.counts

unfoldable pub new : GCounter
new = record { counts = HashMap.new }

-- `none` is a panic on overflow.
unfoldable pub increment : Profile → GCounter → ReplicaId → ℕ → Option GCounter
increment p self replica n = do
  count ← add u64_size p (unwrap_or (HashMap.get self.counts replica) 0) n
  some (record { counts = HashMap.insert self.counts replica count })

unfoldable pub value : Profile → GCounter → Option ℕ
value p self = sum_from p 0 (HashMap.values self.counts)

unfoldable pub replica_count : GCounter → ℕ
replica_count self = HashMap.len self.counts

-- the body of the loop of `merge`
abbrev pub merge_count : ReplicaId → ℕ → HashMap ReplicaId ℕ → HashMap ReplicaId ℕ
merge_count replica count counts =
    HashMap.insert counts replica (max (unwrap_or (HashMap.get counts replica) 0) count)

unfoldable pub merge : GCounter → GCounter → GCounter
merge self other = record { counts = for_entries other.counts merge_count self.counts }

instance abbrev pub cvrdt : CvRdt GCounter
cvrdt = record { merge = merge }

-- The helper of the tests: a counter from a list of increments.
unfoldable pub build_from : Profile → GCounter → List (ReplicaId × ℕ) → Option GCounter
build_from p c [] = some c
build_from p c ((r, n) ∷ ops) = do c' ← increment p c r n; build_from p c' ops

abbrev pub build : Profile → List (ReplicaId × ℕ) → Option GCounter
build p ops = build_from p new ops
