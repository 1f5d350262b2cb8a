-- ===== src/Ctf/Client/Tests.antt =====
-- Sprites, status lines, the flag indicator and the end of a match on a player's screen, and the
-- lobby before it.
use spectranet.Base.{
  ℕ, ◌&&◌, ◌<◌, ◌+◌, ◌*◌, ◌==◌, ◌≤◌, ◌≡◌, refl, arith, ltb_ℤ, ◌==ℤ◌, if◌then◌else◌, pos, true,
  false, Option, none, some, List, [], ◌∷◌, length, codes, replicate, c_field, take, ap, drop, map,
  ◌++◌, ◌/◌, ◌-◌, Gives, lacks, lacks-Lacks,
}
use spectranet.Ctf.Types.{MapXy, Player, zero_object, no_player_flags}
use spectranet.Ctf.Status.{flag_direction}
use spectranet.Ctf.Endgame.{winner_of, won, game_end_msg}
use spectranet.Ctf.Client.Sprites.{SpriteMsg, init_sprite_lib}
use spectranet.Ctf.Client.Sprites.Table.{IsTable}
use spectranet.Ctf.Client.Sprites.Moves.{present}
use spectranet.Ctf.Client.Sprites.Shown.{
  Told, sprite, removed, told, on_screen, told-init_sprite_lib,
}
use spectranet.Ctf.Client.Sprites.{draw_map}
use spectranet.Ctf.Client.Sprites.Tiles.{
  row_spots, map_spots, painted, HasRows, send_map_msg-draw_map,
}
use spectranet.Ctf.Types.{Maptile, Viewport}
use spectranet.Ctf.World.{World, ◌>>=◌, ◌>>◌, gets, modify, pure, skip}
use spectranet.Ctf.MapTiles.Load
use mathlib.Core.Option
use spectranet.Ctf.View.{rows_end, send_map_msg}
use spectranet.Ctf.Matchmake.{send_dropped}
use spectranet.Ctf.Server
use spectranet.Ctf.MapTiles.Load.Shape.{Ascending}
use spectranet.Ctf.Tests.{test_env, test_config, corner}
use spectranet.Ctf.Client.Panel.{
  Panel, set_msg_area, update_times, flag_alert, score_draw, victory, defeat, no_lives, game_over,
}
use spectranet.Ctf.Client.Panel.Line.{columns, update_times-set_msg_area}
use spectranet.Ctf.Client.Panel.Flag.{cell, flashes, flag_alert-flag_direction}
use spectranet.Ctf.Client.Panel.Result.{own, other, outcome_of, game_over-won}
use spectranet.Ctf.Client.Lobby.{Poll, quiet, arrived, send_sync_msg}
use spectranet.Ctf.Client.Lobby.Rate.{lobby_run, sent_count, sent_count-lobby_run}
use spectranet.Ctf.Client.Lobby.Sync.{Ends, send_sync_msg-Ends}

abbrev foton_at : ℕ → SpriteMsg
foton_at n = record { objid = n; x = 20; y = 30; rotation = 0; id = 1; colour = 7; flags = 0 }

abbrev volley : List Told
volley =
    sprite (foton_at 3) ∷ sprite (foton_at 3) ∷ sprite (foton_at 40) ∷ removed 3 ∷ removed 9 ∷ []

told-init_sprite_lib_example :
    Gives
      (λ t. IsTable t × (present t.sprtbl ≡ on_screen volley (replicate 48 false)))
      (told volley init_sprite_lib)
told-init_sprite_lib_example = told-init_sprite_lib volley (
  (omega arith, omega arith, omega arith),
  (
    (omega arith, omega arith, omega arith),
    ((omega arith, omega arith, omega arith), (omega arith, (omega arith, tt))),
  ),
)

abbrev dark : Panel
dark = record {
  gamemsg = replicate 43 0;
  msglen = 0;
  msgpos = 0;
  printpos = 0;
  flagindbg = 8;
  memory = λ a. 0;
}

-- Ñ is written with two bytes.
abbrev greeting : List ℕ
greeting = 0xC3 ∷ 0x91 ∷ codes "o"

greeting-Lacks : lacks 0 greeting ≡ true
unfolding lacks
greeting-Lacks = refl

update_times-set_msg_area_example :
    Gives
      (λ r. r.1 ≡ take 2 (columns 0 greeting))
      (update_times 2 (set_msg_area (length greeting ∷ c_field 42 0 greeting) dark))
update_times-set_msg_area_example =
    update_times-set_msg_area 2 dark 0 greeting (omega arith)
      (lacks-Lacks 0 greeting greeting-Lacks)

abbrev flag : MapXy
flag = record { mapx = 500; mapy = 100 }

flag_alert-flag_direction_example :
    ((r c : ℕ) × (flag_direction flag zero_object ≡ 16 * r + c)
      × (r < 3)
      × (c < 3)
      × ((row col : ℕ)
          → row < 3
          → col < 3
          → flashes ((flag_alert (flag_direction flag zero_object) dark).memory (cell row col))
            ≡ ((row == r) && (col == c))))
    × ((row col : ℕ)
        → row < 3
        → col < 3
        → flashes ((flag_alert 0xFF dark).memory (cell row col)) ≡ false)
flag_alert-flag_direction_example = flag_alert-flag_direction dark flag zero_object (omega arith)

abbrev red_player : Player
red_player = record {
  playerobj = none;
  name = codes "ann";
  team = 1;
  score = pos 0;
  lives = pos 5;
  flags = no_player_flags;
  view = record { tx = 0; ty = 0; bx = 223; by = 183 };
  vpcframes = pos 0;
  playernum = 0;
  clientid = 0;
  goals = 0;
}

game_over-won_example :
    (outcome_of
        (game_over (game_end_msg 0 0 (won (winner_of (pos 2) (pos 3)) red_player) (pos 2) (pos 3)))
      ≡ some (
          if pos 2 ==ℤ pos 3
          then score_draw
          else if ltb_ℤ (other red_player (pos 2) (pos 3)) (own red_player (pos 2) (pos 3))
          then victory
          else defeat))
    × (outcome_of (game_over (game_end_msg 0 1 0 (pos 2) (pos 3))) ≡ some no_lives)
game_over-won_example = game_over-won red_player (pos 2) (pos 3) 0 (omega arith)

-- The answer to the second message comes at once.
abbrev slow_net : ℕ → Poll
slow_net n = if n == 512 then arrived (pos 3) else quiet

send_sync_msg-Ends_example : Ends (λ n. true) slow_net 0 3 (send_sync_msg (λ n. true) slow_net)
send_sync_msg-Ends_example = send_sync_msg-Ends (λ n. true) slow_net

abbrev held : List (Option ℕ)
held = replicate 600 (some 48)

sent_count-lobby_run_example : 512 * sent_count (lobby_run 512 held) ≤ length held
sent_count-lobby_run_example = sent_count-lobby_run held

-- Two rows of a map of three, with a spawn point left of the viewport.
abbrev walls : List (List Maptile)
walls =
    (record { tile = b's'; x = 1 }
      ∷ record { tile = b'B'; x = 5 }
      ∷ record { tile = b'a'; x = 9 }
      ∷ [])
    ∷ (record { tile = b'f'; x = 7 } ∷ record { tile = b'B'; x = 40 } ∷ [])
    ∷ []

abbrev walled : World
walled =
    Server.loaded test_env test_config
      (record {
        maprow = walls ++ ((record { tile = b'B'; x = 0 } ∷ []) ∷ []);
        lastrow = pos 2;
        spawnpoints = replicate 10 corner;
        spawndirs = replicate 10 0;
        flagpoints = corner ∷ corner ∷ [];
      })
      []

abbrev window : Viewport
window = record { tx = 32; ty = 0; bx = 256; by = 184 }

-- What the screen shows of them.
abbrev shown_walls : List (ℕ × ℕ × ℕ)
shown_walls = (0, 1, b'B') ∷ (0, 5, b'a') ∷ (1, 3, b'f') ∷ []

spots : map_spots 4 32 0 walls ≡ shown_walls
unfolding map_spots row_spots
spots = refl

rows_walled : rows_end walled.game_map.lastrow (184 / 8) - 0 ≡ 2
unfolding Server.loaded
rows_walled = refl

walled-HasRows : HasRows walled.game_map.maprow 0 walls
unfolding HasRows Ascending Server.loaded
walled-HasRows = (
  refl,
  omega arith,
  (omega arith, (omega arith, (omega arith, tt))),
  (refl, omega arith, (omega arith, (omega arith, tt)), tt),
)

send_map_msg-draw_map_example :
    (msg : List ℕ) × (send_map_msg 3 window walled ≡ send_dropped 3 msg walled)
    × (draw_map (drop 2 msg) ≡ some (map painted (map_spots 4 32 0 walls)))
send_map_msg-draw_map_example =
    send_map_msg-draw_map walled 3 window walls rows_walled walled-HasRows (omega arith)
      (omega arith) (omega (arith, ap length spots))

-- The loader on two lines of text.
loaded_walls :
    Option.map
      (λ r. r.1.game_map.maprow)
      (Load.load_map ((codes " sB" ++ (10 ∷ [])) ∷ codes "*d12" ∷ codes "3 a" ∷ []) walled)
    ≡ some (
        (record { tile = b's'; x = 1 } ∷ record { tile = b'B'; x = 2 } ∷ [])
        ∷ (record { tile = b's'; x = 0 } ∷ record { tile = b'a'; x = 2 } ∷ [])
        ∷ [])
unfolding Load.load_map Load.load_lines Load.load_line Load.build_map_row Load.row_from
    Load.note_place Load.change_map Server.loaded ◌>>=◌ ◌>>◌ gets modify pure skip
loaded_walls = refl
