-- ===== src/Car.antt =====
-- internal/car: the CAR store of an actor's repository.
pub mod Diff
pub mod Shard
pub mod Session
pub mod Import
pub mod View
pub mod Compact
