-- ===== src/Scanning.antt =====
-- backend/layersmith/services/scanning.py: getting an image to the scanner.
pub mod Archive
pub mod Records
pub mod Trivy
mod Tests
pub mod Run
