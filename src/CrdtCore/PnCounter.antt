-- ===== src/CrdtCore/PnCounter.antt =====
-- crates/crdt-core/src/pn_counter.rs: a counter that goes up and down, from two that grow.
pub mod Laws
pub mod Tests
use nettverksprogrammering_p.Base.{
  ℕ, Bool, ◌&&◌, true, false, Option, some, List, [], ◌∷◌, ◌>>=◌, if◌then◌else◌,
}
use nettverksprogrammering_p.Base.Int.{ℤ, sub_ℕ}
use nettverksprogrammering_p.Std.Word.{Profile}
use nettverksprogrammering_p.CrdtCore.Clock.{ReplicaId}
use nettverksprogrammering_p.CrdtCore.Counter
use nettverksprogrammering_p.CrdtCore.Counter.{GCounter}
use nettverksprogrammering_p.CrdtCore.Traits.{CvRdt}

pub record PnCounter : Type 0 where
  pub increments : GCounter
  pub decrements : GCounter

-- The derived `==`.
unfoldable pub equals : PnCounter → PnCounter → Bool
unfolding Counter.equals
equals self other =
    Counter.equals self.increments other.increments
    && Counter.equals self.decrements other.decrements

unfoldable pub new : PnCounter
new = record { increments = Counter.new; decrements = Counter.new }

unfoldable pub increment : Profile → PnCounter → ReplicaId → ℕ → Option PnCounter
increment p self replica n = do
  increments ← Counter.increment p self.increments replica n
  some (record self { increments = increments })

unfoldable pub decrement : Profile → PnCounter → ReplicaId → ℕ → Option PnCounter
decrement p self replica n = do
  decrements ← Counter.increment p self.decrements replica n
  some (record self { decrements = decrements })

-- The subtraction is one of `i128`, which `value-fits_i128` shows is exact.
unfoldable pub value : Profile → PnCounter → Option ℤ
value p self = do
  up ← Counter.value p self.increments
  down ← Counter.value p self.decrements
  some (sub_ℕ up down)

unfoldable pub merge : PnCounter → PnCounter → PnCounter
merge self other = record {
  increments = Counter.merge self.increments other.increments;
  decrements = Counter.merge self.decrements other.decrements;
}

instance abbrev pub cvrdt : CvRdt PnCounter
cvrdt = record { merge = merge }

-- One operation of the tests: the replica, whether it is an increment, and the amount.
abbrev pub Op : Type 0
Op = ReplicaId × Bool × ℕ

abbrev pub apply : Profile → PnCounter → Op → Option PnCounter
apply p c (r, is_inc, n) = if is_inc then increment p c r n else decrement p c r n

-- The helper of the tests.
unfoldable pub build_from : Profile → PnCounter → List Op → Option PnCounter
build_from p c [] = some c
build_from p c (op ∷ ops) = do c' ← apply p c op; build_from p c' ops

abbrev pub build : Profile → List Op → Option PnCounter
build p ops = build_from p new ops
