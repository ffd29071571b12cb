-- ===== src/CrdtCore.antt =====
-- crates/crdt-core/src: the CRDT types and the trait that they implement.
pub mod Clock
pub mod Counter
pub mod GSet
pub mod PnCounter
pub mod Traits
pub mod VectorClock
