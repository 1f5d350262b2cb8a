-- ===== src/Ctf/Server.antt =====
-- The whole server: `main` of server/ctfserv.c up to the message loop, and the loop over what the
-- network and the clock bring.
use spectranet.Base.{pos, true, false, none, List, [], ◌∷◌, replicate}
use spectranet.Ctf.Limits.{max_clients, max_objs}
use spectranet.Ctf.Types.{PowerSpawn, MapXy}
use spectranet.Ctf.World.{World, Env, Config, GameMap, Act, skip, ◌>>◌}
use spectranet.Ctf.Objects.{create_flags}
use spectranet.Ctf.Frame.{init_obj_list}
use spectranet.Ctf.Receive.{Event, round}

-- The globals once the map is read and the socket is made: no clients, and the pings are zero.
unfoldable pub loaded : Env → Config → GameMap → List PowerSpawn → World
loaded env config m spawns = record {
  env = env;
  config = config;
  game_map = m;
  objs = λ p. none;
  next_addr = 1;
  objlist = replicate max_objs none;
  players = replicate max_clients none;
  dead_players = replicate max_clients none;
  dead_player_idx = 0;
  teamscore = pos 0 ∷ pos 0 ∷ [];
  flagloc = origin ∷ origin ∷ [];
  flag_taken = false ∷ false ∷ [];
  frames = 0;
  game_over = false;
  time_remaining = pos 0;
  player_count = pos 0;
  running = false;
  powerups = spawns;
  rands = 0;
  cliaddr = replicate max_clients none;
  player_buf = replicate max_clients none;
  pingdata = replicate max_clients (record { frames = 0; rspmiss = 0 });
  sent = [];
  sends = 0;
}
  where
    origin : MapXy
    origin = record { mapx = 0; mapy = 0 }

-- `messageLoop` over a history of events.
unfoldable pub message_loop : List Event → Act
message_loop [] = skip
message_loop (e ∷ es) = round e >> message_loop es

-- `main`: the object list, the flags, then the loop.
unfoldable pub serve : List Event → Act
serve es = init_obj_list true >> (create_flags >> message_loop es)
