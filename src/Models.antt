-- ===== src/Models.antt =====
-- backend/layersmith/services/llm_models.py and the part of llm/catalog.py that it calls: models that
-- are downloaded once from Hugging Face, checked, and offered as the parts of a tar. What an HTTP request gives, the disk's free
-- space, `hashlib`, and `Path.resolve` are parameters.
pub mod Files
pub mod Names
pub mod Download
pub mod Service
mod Tests
