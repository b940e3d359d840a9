-- ===== src/Django.antt =====
-- netix_backend/django: the parts that stand on Django and DRF.
pub mod ChangeHistory
pub mod Views
pub mod ViewsAio
pub mod TestSettings
pub mod OrgScope
pub mod Pagination
pub mod Exceptions
pub mod Serializers
pub mod DbTimeout
pub mod Models
pub mod OrgBootstrap
pub mod Cache
