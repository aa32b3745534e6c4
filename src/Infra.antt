-- ===== src/Infra.antt =====
-- internal/infra: the snapshot of the infrastructure.
pub mod Types
pub mod Snapshot
pub mod Collect
pub mod Assemble
pub mod Cache
mod Tests
