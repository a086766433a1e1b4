-- ===== src/Repo.antt =====
-- internal/repo: the actor repository.
pub mod Tid
pub mod Actions
pub mod ActorRepo
pub mod Manager
pub mod Locks
pub mod Walk
pub mod External
