-- ===== src/Parser/Progress/Stmt.antt =====
-- src/parser.rs: the statements take tokens.
pub mod Control
pub mod Assign
pub mod Block
