-- ===== src/Sql.antt =====
-- server/parser: the lexer and the parser of the SQL dialect.
pub mod Token
pub mod Keyword
pub mod Lexer
pub mod Ast
pub mod Cursor
pub mod Conditions
pub mod Parser
pub mod Tests
