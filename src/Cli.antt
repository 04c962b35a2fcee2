-- ===== src/Cli.antt =====
-- The command line client: cli/main.go.
pub mod Terminal
pub mod Output
pub mod Commands
pub mod Main
pub mod Exits
pub mod Documented
pub mod CommandLines
pub mod Chats
pub mod Paging
pub mod Training
pub mod Replaying
pub mod Messages
pub mod Refused
pub mod Tests
