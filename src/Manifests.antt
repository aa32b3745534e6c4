-- ===== src/Manifests.antt =====
-- internal/manifests/generator.go: the onboarding request, its defaults, its validation, and the files
-- that are generated for an app.
pub mod Request
pub mod Validate
pub mod Templates
pub mod Generate
mod Tests
