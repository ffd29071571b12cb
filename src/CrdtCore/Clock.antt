-- ===== src/CrdtCore/Clock.antt =====
-- crates/crdt-core/src/clock.rs
use nettverksprogrammering_p.Base.{ℕ}

-- a `u64`
abbrev pub ReplicaId : Type 0
ReplicaId = ℕ

pub record Dot : Type 0 where
  pub counter : ℕ
  pub replica : ReplicaId

-- The arguments come in the other order than the fields.
pub dot : ReplicaId → ℕ → Dot
dot replica counter = record { counter = counter; replica = replica }
