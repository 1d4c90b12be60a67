-- ===== src/Tokenizer.antt =====
-- The tokenizer of src/parser/: the text of a statement becomes a list of tokens.
pub mod Types
pub mod Keywords
pub mod Scan
pub mod Loops
pub mod Progress
pub mod Ends
pub mod Words
