-- ===== src/Manifests/Templates.antt =====
-- The templates of the files of an app. Each ends its lines with a newline.
pub mod Lines
pub mod Workload
pub mod Policy
