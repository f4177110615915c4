-- ===== src/Llm.antt =====
-- The LLM module of the backend (backend/src/modules/llm).
pub mod Failure
pub mod SafeError
pub mod Providers
mod Tests
