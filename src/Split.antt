-- ===== src/Split.antt =====
-- backend/layersmith/services/splitting.py: a large archive served as byte ranges of itself, with the
-- service that computes their checksums and the script that puts them together.
pub mod Plan
pub mod Stream
pub mod Hash
pub mod Manifest
pub mod Service
pub mod Assemble
pub mod Script
mod Tests
