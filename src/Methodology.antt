-- ===== src/Methodology.antt =====
-- The methodology reference data and the services that index it (backend/app/domain/methodology.py,
-- backend/app/services/methodology_registry_service.py).
pub mod Types
pub mod Registry
pub mod ValueIndex
pub mod Mapping
pub mod Projection
