-- ===== src/Parser/Progress/Rules.antt =====
-- src/parser.rs: how the kinds of action compose: sequence, condition, loop and nested query.
mod Sequence
mod Loops
mod Resting
pub use Sequence.*
pub use Loops.*
pub use Resting.*
