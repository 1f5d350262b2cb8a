-- ===== src/Ctf/Sound/Reach.antt =====
-- Every state that the server can reach is well formed.
use spectranet.Base.{◌≤◌, List, [], ◌∷◌, length, arith, true}
use spectranet.Ctf.Types.{PowerSpawn}
use spectranet.Ctf.World.{Env, Config, GameMap}
use spectranet.Ctf.Receive.{Event}
use spectranet.Ctf.Server
use spectranet.Ctf.Keeps.{Keeps, After, Keeps-seq, Keeps-skip}
use spectranet.Ctf.Sound.{IsSound, IsSpawn, All}
use spectranet.Ctf.Sound.Making.{create_flags-Keeps}
use spectranet.Ctf.Sound.Frames.{init_obj_list-Keeps}
use spectranet.Ctf.Sound.Rounds.{round-Keeps}

message_loop-Keeps : (es : List Event) → Keeps IsSound (Server.message_loop es)
unfolding Server.message_loop
message_loop-Keeps [] = Keeps-skip
message_loop-Keeps (e ∷ es) = Keeps-seq _ _ (round-Keeps e) (message_loop-Keeps es)

pub loaded-IsSound :
    (env : Env) (config : Config) (m : GameMap) (spawns : List PowerSpawn)
    → length spawns ≤ 20
    → All IsSpawn spawns
    → IsSound (Server.loaded env config m spawns)
unfolding Server.loaded
loaded-IsSound env config m spawns few ok = ground arith

-- Whatever the clients send and however the frames fall between, a server that has not faulted is
-- in a well-formed state: no output buffer holds more than its 256 bytes or counts more messages than
-- it has bytes, the arrays keep their sizes, the register of deaths is not overrun, every player is in
-- one of the three teams under a name of at most 15 bytes, and every power-up waits less than 720
-- frames; given that the map brought at most 20 such spawn points.
pub serve-IsSound :
    (env : Env) (config : Config) (m : GameMap) (spawns : List PowerSpawn) (es : List Event)
    → length spawns ≤ 20
    → All IsSpawn spawns
    → After IsSound (Server.serve es (Server.loaded env config m spawns))
unfolding Server.serve
serve-IsSound env config m spawns es few ok =
    (Keeps-seq _ _ (init_obj_list-Keeps true)
        (Keeps-seq _ _ create_flags-Keeps (message_loop-Keeps es))).at
      _ (loaded-IsSound env config m spawns few ok)
