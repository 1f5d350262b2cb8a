-- ===== src/Spectator/Tests.antt =====
-- A datagram that is shown, a score board, and a map.
use spectranet.Base.{
  ℕ, ◌≡◌, refl, arith, pos, mod_ℤ, Option, none, some, List, [], ◌∷◌, ◌++◌, codes, replicate,
  decimal, c_field, false, c_text, Gives,
}
use spectranet.Ctf.Msg
use spectranet.Ctf.Types.{ObjType, Object, Player, zero_object, no_player_flags}
use spectranet.Ctf.World.{MsgBuf}
use spectranet.Ctf.Buffer
use spectranet.Ctf.Status
use spectranet.Ctf.View
use spectranet.Ctf.Sound.{All}
use spectranet.Ctf.Client.Wire.{queue_all}
use spectranet.Spectator.Reader.{act_on, get_message}
use spectranet.Spectator.Wire.{FromServer, sprite, ping, game_end, get_message-queue_all}
use spectranet.Spectator.Notes.{init_notes, no_msg}
use spectranet.Spectator.Lines.{
  NoteEvent, added, frame, frames_shown, frames_of, frames_shown-frames_of,
}
use spectranet.Spectator.Scores.{init_board, show_scores}
use spectranet.Spectator.Board.{visible, on_board, show_scores-on_board}
use spectranet.Spectator.Safe.{Any}
use spectranet.Spectator.Map.{draw_map_rows}
use spectranet.Spectator.Rows.{every_row, draw_map_rows-snoc}
use spectranet.Spectator.Screen.{Surface, init_screen, receive}
use spectranet.Spectator.Whole.{IsScreenOf, init_screen-IsScreen, receive-IsScreen}

abbrev tank : Object
tank = record zero_object {
  type = ObjType.player;
  owner = pos 3;
  x = pos 800;
  y = pos 640;
  commanded = record { dir = pos 5; velocity = pos 20 };
  hp = pos 70;
  ammo = pos 15;
}

abbrev told : List (ℕ × List ℕ)
told =
    (Msg.sprite_msg16, View.sprite_msg16 0 tank 7 none)
    ∷ (Msg.ping_msg, 0 ∷ [])
    ∷ (Msg.spec_game_end, 0 ∷ 1 ∷ 2 ∷ 3 ∷ [])
    ∷ []

told-FromServer : All FromServer told
told-FromServer = (
  sprite 0 tank 7 none (λ e. (3, refl, omega arith, (omega arith, omega arith))),
  (ping 0, (game_end 0 1 2 3, tt)),
)

abbrev told_buf : MsgBuf
told_buf = record {
  count = 3;
  body =
      12 ∷ 7 ∷ 3 ∷ 32 ∷ 3 ∷ 128 ∷ 2 ∷ 5 ∷ 0 ∷ 0 ∷ 0 ∷ 70 ∷ 15 ∷ 0 ∷ 0 ∷ 7 ∷ 0 ∷ 15 ∷ 0 ∷ 1 ∷ 2 ∷ 3
      ∷ [];
}

told_queued : queue_all Buffer.empty_buf told ≡ some told_buf
unfolding Buffer.buf_add View.sprite_msg16 View.type_id
told_queued = refl

get_message-queue_all_example :
    get_message (told_buf.count ∷ told_buf.body) ≡ some (act_on false told)
get_message-queue_all_example =
    get_message-queue_all told {b = told_buf} told-FromServer told_queued

abbrev screen : Surface
screen = record { cntr = 400; hgt = 600; wid = λ t. 20; tall = λ t. 40 }

receive-IsScreen_example :
    Gives IsScreenOf (receive screen (told_buf.count ∷ told_buf.body) init_screen)
receive-IsScreen_example =
    receive-IsScreen screen told init_screen {b = told_buf} told-FromServer told_queued
      init_screen-IsScreen

abbrev player : Player
player = record {
  playerobj = none;
  name = codes "ann";
  team = 1;
  score = pos 0;
  lives = pos 5;
  flags = no_player_flags;
  view = record { tx = 0; ty = 0; bx = 223; by = 183 };
  vpcframes = pos 0;
  playernum = 0;
  clientid = 0;
  goals = 4;
}

abbrev slots : List (Option Player)
slots = none ∷ some player ∷ some (record player { team = 2 }) ∷ replicate 13 none

abbrev names : List (List ℕ)
names = replicate 16 (c_field 16 0 (codes "ann"))

shown_names : on_board names slots ≡ (1, codes "ann", codes "4") ∷ []
unfolding on_board c_field decimal c_text
shown_names = refl

show_scores-on_board_example :
    Gives
      (λ after.
        (after.blue_score ≡ some (decimal (pos (mod_ℤ (pos 2) 256))))
        × (after.red_score ≡ some (decimal (pos (mod_ℤ (pos 4) 256))))
        × (visible after.scores ≡ on_board names slots))
      (show_scores names (Status.spectator_score_msg 0 (pos 2) (pos 4) slots) init_board)
unfolding init_board
show_scores-on_board_example =
    show_scores-on_board 0 (pos 2) (pos 4) slots names init_board refl refl refl

abbrev chatter : List NoteEvent
chatter = added (codes "one") ∷ frame ∷ added (codes "two") ∷ frame ∷ []

frames_shown-frames_of_example :
    frames_shown (pos 600) chatter init_notes ≡ frames_of (pos 600) chatter (replicate 5 no_msg)
frames_shown-frames_of_example = frames_shown-frames_of (pos 600) chatter

draw_map_rows-snoc_example :
    (draw_map_rows 0 ((codes "BBB" ∷ codes "Ba0" ∷ []) ++ (codes "BBB" ∷ []))
      ≡ every_row 0 (codes "BBB" ∷ codes "Ba0" ∷ []))
    × Gives Any (draw_map_rows 0 ((codes "BBB" ∷ codes "Ba0" ∷ []) ++ (codes "BBB" ∷ [])))
draw_map_rows-snoc_example = draw_map_rows-snoc 0 (codes "BBB" ∷ codes "Ba0" ∷ []) (codes "BBB")
