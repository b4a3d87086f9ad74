-- ===== src/Sql.antt =====
-- extensions/sql: the tokenizer, the parser, and prepared statements with their cache.
pub mod Ast
pub mod Keywords
pub mod Tokenizer
pub mod Parser
pub mod Executor
