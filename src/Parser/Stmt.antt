-- ===== src/Parser/Stmt.antt =====
-- src/parser.rs: statements and blocks.
pub mod Control
pub mod Assign
pub mod Block
