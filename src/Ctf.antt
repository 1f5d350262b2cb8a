-- ===== src/Ctf.antt =====
-- The server of the capture-the-flag tank game, examples/ctfgame/server and examples/ctfgame/common.
pub mod Msg
pub mod Limits
pub mod Types
pub mod World
pub mod Buffer
pub mod Objects
pub mod Physics
pub mod Status
pub mod Matchmake
pub mod Endgame
pub mod Powerups
pub mod Flags
pub mod Combat
pub mod MapTiles
pub mod Collide
pub mod View
pub mod Clients
pub mod Frame
pub mod Receive
pub mod Clock
pub mod Keeps
pub mod Total
pub mod Server
pub mod Sound
pub mod Client
mod Tests
