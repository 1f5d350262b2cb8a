-- ===== src/Ctf/Tests.antt =====
-- Runs on concrete clients, tanks and messages, and the theorems on them.
use spectranet.Base.{
  lacks, lacks-Lacks, ℕ, ◌≢◌, ◌+ℤ◌, ◌*ℤ◌, ◌+◌, ◌*◌, ◌/◌, pos, negsuc, ◌≤ℤ◌, ◌-ℤ◌, ◌≡◌, refl, true,
  false, Option, none, some, List, [], ◌∷◌, ◌++◌, length, get_elem?, leb, ◌↔◌, arith, if◌then◌else◌,
  codes, replicate,
}
use spectranet.Ctf.Types.{
  ObjType, Object, ObjectProperties, Viewport, MapXy, Player, SockAddr, PowerSpawn, zero_object,
  no_player_flags,
}
use spectranet.Ctf.Msg
use spectranet.Ctf.World.{World, Env, Config, GameMap, MsgBuf}
use spectranet.Ctf.Buffer
use spectranet.Ctf.Client.{read_datagram}
use spectranet.Ctf.Client.Lobby
use spectranet.Ctf.Client.Lobby.Wire.{IsNamed, lobby_of, receive-make_matchmake_msgs}
use spectranet.Ctf.Matchmake
use spectranet.Ctf.Client.InputBox
use spectranet.Ctf.Client.InputBox.Text.{handle_keys-resetinput_box}
use spectranet.Ctf.Client.Wire.{ToPlayer, removed, no_flag, queue_all, read-queue_all}
use spectranet.Ctf.Clients.{free_client, find_client, find_from}
use spectranet.Ctf.Total.Arrival.{find_client-add_new_client}
use spectranet.Ctf.Clock.{usecdiff}
use spectranet.Ctf.Keeps.{After}
use spectranet.Ctf.Matchmake.{order_from, is_game_startable}
use spectranet.Ctf.Matchmake.Teams.{
  numbered, occupied, IsSettled, order_from-numbered, is_game_startable_lem,
}
use spectranet.Ctf.Physics.{process_push, moved, control_motion}
use spectranet.Ctf.Physics.Motion.{IsDrive, control_motion-IsDrive}
use spectranet.Ctf.Physics.Steps.{OnMap, push_and_move}
use spectranet.Ctf.Receive.{Event, datagram, timeout}
use spectranet.Ctf.Server
use spectranet.Ctf.Sound.{IsSound, All, Slot, frames}
use spectranet.Ctf.Sound.Messages.{packed, buf_add_lem}
use spectranet.Ctf.Sound.Reach.{serve-IsSound, loaded-IsSound}
use spectranet.Ctf.Total.Lobby.{InLobby}
use spectranet.Ctf.Total.Choosing.{
  LobbyMessage, mm_start, mm_ready, mm_stop, team_request, encode_all, handle_all_lem,
}
use spectranet.Ctf.Clients
use spectranet.Ctf.Clients.{live}
use spectranet.Ctf.Total.Greeting.{greeting_lem}
use spectranet.Ctf.Receive

abbrev pub test_env : Env
test_env = record {
  send_ok = λ n. true;
  rand = λ n. n * 7919;
  malloc_ok = λ p. true;
  sqrt_int = λ n. n / 64;
  junk = 0;
}

abbrev pub test_config : Config
test_config = record {
  winning_score = pos 3;
  max_lives = pos 5;
  time_limit = pos 600;
  max_wall_collision_dmg = pos 20;
  min_players = pos 2;
}

abbrev pub corner : MapXy
corner = record { mapx = 64; mapy = 32 }

abbrev far : MapXy
far = record { mapx = 512; mapy = 256 }

abbrev test_map : GameMap
test_map = record {
  maprow = (record { tile = 65; x = 3 } ∷ []) ∷ [];
  lastrow = pos 0;
  spawnpoints = replicate 10 corner;
  spawndirs = replicate 10 0;
  flagpoints = corner ∷ far ∷ [];
}

abbrev fuel_dump : PowerSpawn
fuel_dump = record { x = pos 1024; y = pos 2048; cooldown = 500; type = ObjType.fuel }

abbrev alice : SockAddr
alice = record { addr = 1; port = 4000 }

abbrev bob : SockAddr
bob = record { addr = 2; port = 4000 }

abbrev test_events : List Event
test_events =
    datagram alice (Msg.hello ∷ codes "alice")
    ∷ datagram bob (Msg.hello ∷ codes "bob")
    ∷ datagram alice (Msg.mm_start ∷ Msg.team_request ∷ 0 ∷ Msg.mm_ready ∷ [])
    ∷ timeout
    ∷ datagram bob (Msg.mm_start ∷ Msg.team_request ∷ 1 ∷ Msg.mm_ready ∷ Msg.mm_stop ∷ [])
    ∷ datagram alice (Msg.start ∷ Msg.client_rdy ∷ Msg.control ∷ 0x81 ∷ [])
    ∷ timeout
    ∷ datagram bob (Msg.bye ∷ [])
    ∷ []

serve-IsSound_example :
    After IsSound
      (Server.serve test_events (Server.loaded test_env test_config test_map (fuel_dump ∷ [])))
serve-IsSound_example =
    serve-IsSound test_env test_config test_map (fuel_dump ∷ []) test_events (omega arith)
      (omega arith, tt)

abbrev one_ping : List (ℕ × List ℕ)
one_ping = (7, 0 ∷ []) ∷ []

abbrev alert : List ℕ
alert = 18 ∷ []

start-IsSound : IsSound (Server.loaded test_env test_config test_map (fuel_dump ∷ []))
start-IsSound =
    loaded-IsSound test_env test_config test_map (fuel_dump ∷ []) (omega arith) (omega arith, tt)

greeting_lem_example :
    ((w' : World) × (Receive.get_message alice
          (Msg.hello ∷ codes "alice")
          (Server.loaded test_env test_config test_map (fuel_dump ∷ []))
        ≡ some (tt, w'))
      × IsSound w')
    × ((w' : World) × (Receive.get_message alice
            (Msg.spec_hello ∷ codes "alice")
            (Server.loaded test_env test_config test_map (fuel_dump ∷ []))
          ≡ some (tt, w'))
        × IsSound w')
greeting_lem_example =
    greeting_lem (Server.loaded test_env test_config test_map (fuel_dump ∷ [])) (codes "alice")
      alice start-IsSound (omega arith)

buf_add_lem_example : Buffer.buf_add (packed one_ping) 5 alert ≡ (
    if leb (1 + length (frames (one_ping ++ ((5, alert) ∷ [])))) 255
    then some (packed (one_ping ++ ((5, alert) ∷ [])))
    else none)
buf_add_lem_example = buf_add_lem one_ping 5 alert

abbrev queued : MsgBuf
queued = record { count = 2; body = 2 ∷ 9 ∷ 1 ∷ 5 ∷ 255 ∷ [] }

two-ToPlayer : All ToPlayer ((2, 9 ∷ 1 ∷ []) ∷ (5, 255 ∷ []) ∷ [])
two-ToPlayer = (removed 9 1, (no_flag, tt))

two_queued : queue_all Buffer.empty_buf ((2, 9 ∷ 1 ∷ []) ∷ (5, 255 ∷ []) ∷ []) ≡ some queued
unfolding Buffer.buf_add
two_queued = refl

read-queue_all_example :
    read_datagram (2 ∷ 2 ∷ 9 ∷ 1 ∷ 5 ∷ 255 ∷ []) ≡ some ((2, 9 ∷ 1 ∷ []) ∷ (5, 255 ∷ []) ∷ [])
read-queue_all_example =
    read-queue_all ((2, 9 ∷ 1 ∷ []) ∷ (5, 255 ∷ []) ∷ []) {b = queued} two-ToPlayer two_queued

abbrev small_view : Viewport
small_view = record { tx = 0; ty = 0; bx = 223; by = 183 }

abbrev tank : Object
tank = record zero_object {
  type = ObjType.player;
  x = pos 800;
  y = pos 640;
  commanded = record { dir = pos 3; velocity = pos 20 };
  actual = record { dir = pos 3; velocity = pos 20 };
  push = record { dir = pos 9; velocity = pos 16 };
  hp = pos 70;
  ammo = pos 15;
}

abbrev neighbour : Object
neighbour = record tank {
  owner = pos 1;
  x = pos 900;
  actual = record { dir = pos 12; velocity = pos 8 };
}

abbrev one_client : World
one_client = record (Server.loaded test_env test_config test_map (fuel_dump ∷ [])) {
  cliaddr = some alice ∷ replicate 15 none;
}

one_client-IsSound : IsSound one_client
unfolding Server.loaded
one_client-IsSound = ground arith

slot_free : free_client 0 one_client.cliaddr ≡ some 1
unfolding free_client
slot_free = refl

bob_new : find_client bob one_client ≡ none
unfolding find_client find_from
bob_new = refl

find_client-add_new_client_example :
    (w' : World) × (Clients.add_new_client (codes "bob") bob no_player_flags one_client
      ≡ some (tt, w'))
    × (get_elem? one_client.cliaddr 1 ≡ some none)
    × (find_client bob w' ≡ some 1)
    × ((c : SockAddr) → c ≢ bob → find_client c w' ≡ find_client c one_client)
find_client-add_new_client_example =
    find_client-add_new_client one_client (codes "bob") bob no_player_flags 1 one_client-IsSound
      slot_free bob_new

push_and_move_example :
    (pushed placed : Object) × (process_push test_env tank ≡ some pushed)
    × (moved pushed ≡ some placed)
    × OnMap placed
push_and_move_example =
    push_and_move test_env tank (omega arith, omega arith) (omega arith, omega arith)

abbrev pedals : ObjectProperties
pedals = record {
  init_velocity = pos 0;
  max_velocity = pos 40;
  max_accel = pos 4;
  max_brake = pos 4;
  turn_speed = pos 3;
  gun_cooldown = pos 18;
  mass = pos 100;
  hitpoints = pos 100;
  armour = pos 1;
  damage = pos 0;
  ttl = negsuc 0;
  pushdecay = pos 1;
  velqty = pos 1;
  destruct_value = pos 100;
}

control_motion-IsDrive_example : IsDrive pedals (control_motion pedals (record tank { ctrls = 5 }))
control_motion-IsDrive_example =
    control_motion-IsDrive pedals (record tank { ctrls = 5 }) (omega arith) (omega arith)
      (omega arith) ((omega arith, omega arith), (omega arith, omega arith))

abbrev player_of : ℕ → Player
player_of t = record {
  playerobj = none;
  name = codes "anon";
  team = t;
  score = pos 0;
  lives = pos 5;
  flags = record no_player_flags { ready = true };
  view = small_view;
  vpcframes = pos 0;
  playernum = 9;
  clientid = 0;
  goals = 0;
}

abbrev squad : List (Option Player)
squad = some (player_of 1) ∷ none ∷ some (player_of 0) ∷ some (player_of 1) ∷ []

order_from-numbered_example : order_from (0 ∷ 0 ∷ 0 ∷ []) squad ≡ some (numbered 0 0 0 squad)
order_from-numbered_example =
    order_from-numbered squad (omega arith, (tt, (omega arith, (omega arith, tt)))) (omega arith)

abbrev lobby : World
lobby = record (Server.loaded test_env test_config test_map []) { players = squad }

is_game_startable_lem_example :
    (is_game_startable lobby ≡ true)
    ↔ ((lobby.min_players ≤ℤ pos (occupied squad)) × All (Slot IsSettled) squad)
is_game_startable_lem_example = is_game_startable_lem lobby

-- Two seconds and more apart, the microseconds count the wrong way round.
half_frame :
    usecdiff
      (record { tv_sec = pos 10; tv_usec = pos 900000 })
      (record { tv_sec = pos 12; tv_usec = pos 20 })
    ≡ pos 2899980
unfolding usecdiff ◌-ℤ◌ ◌+ℤ◌ ◌*ℤ◌
half_frame = refl

abbrev one_seated : World
one_seated = record (Server.loaded test_env test_config test_map []) {
  players = some (player_of 2) ∷ replicate 15 none;
}

one_seated-InLobby : InLobby 0 one_seated
unfolding Server.loaded
one_seated-InLobby = (ground arith, tt)

abbrev choices : List LobbyMessage
choices = mm_start ∷ team_request 7 ∷ team_request 1 ∷ mm_ready ∷ mm_stop ∷ []

handle_all_lem_example :
    (w' : World) × (Receive.handle_all 7 0 (live 0) 7 (encode_all choices ++ (0 ∷ [])) one_seated
      ≡ some (tt, w'))
    × InLobby 0 w'
handle_all_lem_example =
    handle_all_lem 0 choices (0 ∷ []) one_seated (omega arith) one_seated-InLobby

-- The box of the player's name, at column 11 and 21 wide.
abbrev closed_box : InputBox.Box
closed_box = record {
  inputbuf = [];
  inputidx = 0;
  startx = 0;
  starty = 0;
  width = 0;
  height = 0;
  curx = 0;
  cury = 0;
  limit = 0;
  ispasswd = false;
  input_ready = false;
  debounce_enter = false;
  spilled = false;
  shown = [];
}

abbrev name_keys : List ℕ
name_keys = 13 ∷ 97 ∷ 7 ∷ 98 ∷ 12 ∷ 99 ∷ 13 ∷ []

handle_keys-resetinput_box_example :
    InputBox.Shape.IsBox 20 11 21
      (InputBox.Text.edit_all 20 name_keys [])
      (InputBox.Text.handle_keys name_keys (InputBox.resetinput 11 12 21 1 20 closed_box))
handle_keys-resetinput_box_example =
    handle_keys-resetinput_box name_keys 11 12 21 1 20 closed_box (omega arith) (omega arith)
      (omega arith) refl

anon-Lacks : lacks 0 (codes "anon") ≡ true
unfolding lacks
anon-Lacks = refl

anon : (t : ℕ) → IsNamed (player_of t)
anon t = (omega arith, lacks-Lacks 0 (codes "anon") anon-Lacks, omega arith)

receive-make_matchmake_msgs_example :
    Lobby.receive (Matchmake.make_matchmake_msgs lobby) ≡ some (lobby_of lobby)
receive-make_matchmake_msgs_example =
    receive-make_matchmake_msgs lobby (omega arith) (anon 1, (tt, (anon 0, (anon 1, tt))))
