-- ===== src/Http.antt =====
-- netix_backend/http: the calls between services.
pub mod Retry
pub mod Health
pub mod Static
pub mod Clients
