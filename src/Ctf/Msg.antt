-- ===== src/Ctf/Msg.antt =====
-- The message ids of common/ctfmessage.h.
use spectranet.Base.{ℕ}

abbrev pub sprite_msg : ℕ
sprite_msg = 0x01

abbrev pub rm_sprite_msg : ℕ
rm_sprite_msg = 0x02

abbrev pub message_msg : ℕ
message_msg = 0x03

abbrev pub scoreboard : ℕ
scoreboard = 0x04

abbrev pub flag_alert : ℕ
flag_alert = 0x05

abbrev pub matchmake_msg : ℕ
matchmake_msg = 0x06

abbrev pub ping_msg : ℕ
ping_msg = 0x07

abbrev pub clr_player_list : ℕ
clr_player_list = 0x08

abbrev pub mm_startable : ℕ
mm_startable = 0x09

abbrev pub mm_exit : ℕ
mm_exit = 0x0A

abbrev pub endgame_score : ℕ
endgame_score = 0x0B

abbrev pub sprite_msg16 : ℕ
sprite_msg16 = 0x0C

abbrev pub player_id_msg : ℕ
player_id_msg = 0x0D

abbrev pub spec_scoreboard_msg : ℕ
spec_scoreboard_msg = 0x0E

abbrev pub spec_game_end : ℕ
spec_game_end = 0x0F

-- Messages from a client.
abbrev pub hello : ℕ
hello = 0x40

abbrev pub spec_hello : ℕ
spec_hello = 0x41

abbrev pub viewport : ℕ
viewport = 0x42

abbrev pub start_ack : ℕ
start_ack = 0x46

abbrev pub start : ℕ
start = 0x45

abbrev pub bye : ℕ
bye = 0x47

abbrev pub client_rdy : ℕ
client_rdy = 0x48

abbrev pub team_request : ℕ
team_request = 0x49

abbrev pub mm_start : ℕ
mm_start = 0x4A

abbrev pub mm_stop : ℕ
mm_stop = 0x4B

abbrev pub mm_ready : ℕ
mm_ready = 0x4C

abbrev pub server_kill : ℕ
server_kill = 0xFF

abbrev pub control : ℕ
control = 0x80

-- Replies to synchronous messages.
abbrev pub ack : ℕ
ack = 0x41

abbrev pub bye_ack : ℕ
bye_ack = 0x48

abbrev pub map_msg : ℕ
map_msg = 0x49

abbrev pub ack_ok : ℕ
ack_ok = 0x00

abbrev pub ack_too_many : ℕ
ack_too_many = 0x01

abbrev pub unable : ℕ
unable = 0x02
