-- ===== src/Git.antt =====
-- internal/git: the GitOps repository that the instance is deployed from.
pub mod Repository
pub mod Rollbacks
pub mod Files
mod Tests
