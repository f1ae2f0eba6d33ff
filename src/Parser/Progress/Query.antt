-- ===== src/Parser/Progress/Query.antt =====
-- src/parser.rs: the queries take tokens.
pub mod Shape
pub mod Join
pub mod Select
pub mod Write
