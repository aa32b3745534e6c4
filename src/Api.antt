-- ===== src/Api.antt =====
-- internal/api: what the handlers of the API share.
pub mod Response
mod Tests
