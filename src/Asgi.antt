-- ===== src/Asgi.antt =====
-- netix_backend/asgi: what stands around the Django application.
pub mod Timeout
pub mod Lifespan
pub mod Registration
pub mod Testing
