-- ===== src/Sql.antt =====
-- sql/: the SQL front-end over a storage engine.
pub mod Error
pub mod Value
pub mod Keys
pub mod Schema
pub mod Rows
pub mod Catalog
pub mod Planner
pub mod Executor
pub mod Lexer
pub mod Syntax
pub mod Parser
pub mod Database
mod Tests
