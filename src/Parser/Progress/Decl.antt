-- ===== src/Parser/Progress/Decl.antt =====
-- src/parser.rs: the parsers of declarations, each as one of the kinds of action.
pub mod Recover
pub mod Schema
pub mod Columns
pub mod Table
pub mod Service
pub mod Job
pub mod Middleware
pub mod Routes
pub mod Server
pub mod Program
