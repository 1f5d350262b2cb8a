-- ===== src/Spectator.antt =====
-- The program that shows a match on a Unix screen, examples/ctfgame/spectator.
pub mod Reader
pub mod Wire
pub mod Icons
pub mod Rotate
pub mod Turns
pub mod Draw
pub mod Safe
pub mod Notes
pub mod Lines
pub mod Scores
pub mod Board
pub mod Map
pub mod Rows
pub mod Screen
pub mod Whole
mod Tests
