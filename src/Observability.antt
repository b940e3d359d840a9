-- ===== src/Observability.antt =====
-- netix_backend/observability: what is reported, and what is kept out of the reports.
pub mod SentryFilters
pub mod OtelMiddleware
