-- ===== src/Parser/Expr.antt =====
-- src/parser.rs: the expressions, from the loosest binding down.
pub mod Primary
pub mod Operators
pub mod Whole
