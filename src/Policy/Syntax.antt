-- ===== src/Policy/Syntax.antt =====
-- What `Parse` takes, written as rules on the tokens, apart from the methods of the parser.
pub mod Expressions
pub mod Means
pub mod Operands
pub mod Comparisons
pub mod Clauses
pub mod Parts
pub mod Policies
pub mod Lengths
pub mod Runs
pub mod Accepts
pub mod Exact
pub mod Truncated
pub mod Panics
mod Tests
