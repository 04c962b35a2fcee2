-- ===== src/Go.antt =====
-- What several parts use of Go's standard library: packages strconv, fmt and flag.
pub mod Decimals
pub mod Integers
pub mod Format
pub mod Flags
pub mod Tests
