-- ===== src/Language.antt =====
-- src/intramind_runtime/language.py: what a repair of generated text has to keep.
pub mod Tokens
pub mod Order
mod Scenarios
