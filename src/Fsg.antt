-- ===== src/Fsg.antt =====
-- The finite-state grammar search.
pub mod History
pub mod Model
pub mod Vocab
