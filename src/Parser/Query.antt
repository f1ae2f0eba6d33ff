-- ===== src/Parser/Query.antt =====
-- src/parser.rs: the queries.
pub mod Shape
pub mod Join
pub mod Select
pub mod Write
