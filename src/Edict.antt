-- ===== src/Edict.antt =====
-- The Edict language (edict/): bytecode, tokenizer and compiler.
pub mod Opcode
pub mod Bytecode
pub mod Tokenizer
pub mod BlockAccumulator
pub mod Compiler
pub mod Scanning
pub mod Rewriting
pub mod RewritingTests
pub mod Tests
