-- ===== src/Frontend.antt =====
-- jules/src/core/diagnostics, jules/src/core/lexer: from source text to tokens.
pub mod Diag
pub mod Token
pub mod Lexer
