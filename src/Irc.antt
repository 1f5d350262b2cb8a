-- ===== src/Irc.antt =====
-- The IRC client: examples/irc. Its input line, what it does with a message of the server, and what
-- it does with a line that the user enters.
pub mod Input
pub mod Client
pub mod Server
pub mod User
mod Tests
