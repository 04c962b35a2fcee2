-- ===== src/Policy.antt =====
-- sdk/go/policy: the Routing Policy DSL.
pub mod Token
pub mod Lexer
pub mod Ast
pub mod Outcome
pub mod Number
pub mod Expression
pub mod Parser
pub mod Grammar
pub mod Syntax
pub mod Tests
