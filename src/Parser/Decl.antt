-- ===== src/Parser/Decl.antt =====
-- src/parser.rs: the declarations.
pub mod Schema
pub mod Columns
pub mod Table
pub mod Recover
pub mod Duration
pub mod Service
pub mod Job
pub mod Middleware
pub mod Routes
pub mod Server
pub mod Program
