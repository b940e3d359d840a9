-- ===== src/Django/Views.antt =====
-- netix_backend/django/views.py: the viewset mixins.
pub mod Identity
pub mod Columns
pub mod WriteScope
pub mod SoftDelete
pub mod Reads
pub mod Confined
pub mod Lists
pub mod Sample
mod Tests
