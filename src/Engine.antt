-- ===== src/Engine.antt =====
-- executor: the execution of parsed statements.
pub mod Candidates
pub mod Condition
pub mod Errors
pub mod Json
pub mod Statements
pub mod Comparison
pub mod Tests
