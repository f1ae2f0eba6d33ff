-- ===== src/Parser/Progress/Expr.antt =====
-- src/parser.rs: the expressions take tokens.
pub mod Primary
pub mod Operators
pub mod Whole
