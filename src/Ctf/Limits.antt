-- ===== src/Ctf/Limits.antt =====
-- The sizes and limits of common/ctfmessage.h, server/ctfserv.h and server/powerups.c.
use spectranet.Base.{ℕ}

abbrev pub max_name : ℕ
max_name = 16

abbrev pub max_objs : ℕ
max_objs = 48

abbrev pub max_clients : ℕ
max_clients = 16

abbrev pub msg_buf_sz : ℕ
msg_buf_sz = 256

abbrev pub max_status_msg : ℕ
max_status_msg = 42

abbrev pub vp_x_pixels : ℕ
vp_x_pixels = 224

abbrev pub vp_y_pixels : ℕ
vp_y_pixels = 184

-- 1000000/GAMETICK with GAMETICK 43000. The macro has no parentheses, so where it stands behind
-- another operator the division is done last; such uses are written out.
abbrev pub game_tick : ℕ
game_tick = 43000

abbrev pub blue_team : ℕ
blue_team = 0

abbrev pub red_team : ℕ
red_team = 1

abbrev pub no_team : ℕ
no_team = 2

abbrev pub max_rsp_miss : ℕ
max_rsp_miss = 4

abbrev pub ping_frames : ℕ
ping_frames = 60

abbrev pub max_pwr_spawns : ℕ
max_pwr_spawns = 20

abbrev pub max_pwr_cooldown : ℕ
max_pwr_cooldown = 720

abbrev pub min_pwr_cooldown : ℕ
min_pwr_cooldown = 240

-- The sizes of a map.
abbrev pub max_rows : ℕ
max_rows = 1024

abbrev pub max_cols : ℕ
max_cols = 1024
