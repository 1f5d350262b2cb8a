-- ===== src/Spectator/Reader.antt =====
-- How the spectator takes a datagram of the server apart and what it does with each message,
-- `getMessage` of spectator/rxtx.c.
use spectranet.Base.{
  ℕ, Bool, true, false, Option, List, [], ◌∷◌, ◌++◌, if◌then◌else◌, ◌==◌, ◌||◌, drop, c_text,
}
use mathlib.Core.Option
use spectranet.Ctf.Msg
use spectranet.Ctf.Client.{Reading, next, last, dump, walk_datagram}

-- The sizes of the messages; SpriteMsg16 has a byte of padding at its end.
unfoldable pub reading : ℕ → List ℕ → Reading
reading id rest =
    if id == Msg.sprite_msg
    then next 7
    else if id == Msg.sprite_msg16
    then next 14
    else if id == Msg.rm_sprite_msg
    then next 2
    else if id == Msg.viewport
    then next 4
    else if id == Msg.map_msg
    then last 0
    else if id == Msg.message_msg
    then next 43
    else if id == Msg.scoreboard
    then next 6
    else if id == Msg.flag_alert || id == Msg.ping_msg
    then next 1
    else if id == Msg.endgame_score
    then next 10
    else if id == Msg.player_id_msg
    then next 17
    else if id == Msg.spec_scoreboard_msg
    then next 50
    else if id == Msg.spec_game_end
    then next 4
    else if id == Msg.mm_exit
    then next 1
    else dump

-- What the program does for a message: the drawing on the screen, the tables of names and scores,
-- and the answer to a ping.
pub data Deed : Type 0 where
  blit_background done_drawing start_game pong : Deed
  manage_sprite handle_player_id show_scores show_winner : List ℕ → Deed
  add_screen_msg : List ℕ → Deed

-- What a message asks for; most of those for players are only stepped over.
unfoldable pub deeds_of : ℕ × List ℕ → List Deed
deeds_of (id, msg) =
    if id == Msg.sprite_msg16
    then manage_sprite msg ∷ []
    else if id == Msg.message_msg
    then add_screen_msg (c_text (drop 1 msg)) ∷ []
    else if id == Msg.ping_msg
    then pong ∷ []
    else if id == Msg.player_id_msg
    then handle_player_id msg ∷ []
    else if id == Msg.spec_scoreboard_msg
    then show_scores msg ∷ []
    else if id == Msg.spec_game_end
    then show_winner msg ∷ []
    else if id == Msg.mm_exit
    then start_game ∷ []
    else []

-- The messages in turn: the map is put on the screen before the first sprite, and the screen is
-- shown after the last message if there was one.
unfoldable pub act_on : Bool → List (ℕ × List ℕ) → List Deed
unfolding deeds_of
act_on update_screen [] = if update_screen then done_drawing ∷ [] else []
act_on update_screen ((id, msg) ∷ ms) =
    let again = act_on true ms in
    let same = act_on update_screen ms in
    if id == Msg.sprite_msg16
    then (if update_screen then [] else blit_background ∷ []) ++ (deeds_of (id, msg) ++ again)
    else deeds_of (id, msg) ++ same

-- A datagram; `none` reads behind it.
unfoldable pub get_message : List ℕ → Option (List Deed)
unfolding act_on walk_datagram reading
get_message rxbuf = Option.map (act_on false) (walk_datagram reading rxbuf)
