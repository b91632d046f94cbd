-- ===== src/Builds.antt =====
-- backend/layersmith/services/builds.py: what becomes of a build's record, files and log.
pub mod Removal
pub mod Run
pub mod Log
pub mod Context
mod Tests
