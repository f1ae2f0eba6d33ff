-- ===== src/Parser.antt =====
-- src/parser.rs: the recursive descent of expressions, queries, types and statements.
pub mod Action
pub mod Cursor
pub mod Names
pub mod Objects
pub mod Query
pub mod Expr
pub mod Types
pub mod Recover
pub mod Stmt
pub mod Grammar
pub mod Decl
pub mod Correct
pub mod Lexed
pub mod Programs
mod Tests
pub mod Progress
