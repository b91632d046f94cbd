-- ===== src/Core.antt =====
-- backend/layersmith/core: what a specification may hold, and the Containerfile that is made of it.
pub mod Patterns
pub mod Catalog
pub mod Reference
pub mod Version
pub mod Specification
pub mod Packages
pub mod Containerfile
mod Tests
