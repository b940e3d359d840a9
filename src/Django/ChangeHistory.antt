-- ===== src/Django/ChangeHistory.antt =====
-- netix_backend/django/change_history.py: who changed what, when, kept on the row.
pub mod Values
pub mod Actor
pub mod Scopes
pub mod Trail
mod Tests
