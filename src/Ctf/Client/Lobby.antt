-- ===== src/Ctf/Client/Lobby.antt =====
-- The lobby of the client: the connection and the messages of examples/ctfgame/client/mmsocket.c, and
-- the screen and the keys of client/mmui.c (the English build).
pub mod Wire
pub mod Rate
pub mod Sync
use spectranet.Base.{
  ℕ, zero, suc, ◌+◌, ◌-◌, ◌*◌, ◌==◌, ◌%◌, ltb, if◌then◌else◌, ℤ, pos, negsuc, ltb_ℤ, Bool, true,
  false, ◌||◌, Option, none, some, List, [], ◌∷◌, ◌++◌, get_elem?, take, drop, length, replicate,
  codes, c_text, c_field,
}
use mathlib.Core.Option
use spectranet.Ctf.Msg
use spectranet.Ctf.Client.{Reading, next, last, dump, walk_datagram}
use spectranet.Keyboard.{Ring}

-- What the network does: the result of a `sendto`, and what a `poll_fd` and the `recvfrom` behind it
-- come to.
pub data Poll : Type 0 where
  quiet failed : Poll
  arrived : ℤ → Poll

-- The error codes of matchmake.h.
abbrev pub tx_error : ℤ
tx_error = negsuc 2

abbrev pub rx_error : ℤ
rx_error = negsuc 3

abbrev pub timeout : ℤ
timeout = negsuc 5

-- What a run of polls comes to: a result, or nothing. The polls are numbered; `rounds` are left.
unfoldable pub poll_loop : (ℕ → Poll) → ℕ → ℕ → Option ℤ
poll_loop net p zero = none
poll_loop net p (suc rounds) =
    let more = poll_loop net (suc p) rounds in
    elim (net p) [
      | quiet ↦ more
      | failed ↦ some rx_error
      | arrived bytes ↦ some (if ltb_ℤ bytes (pos 0) then rx_error else bytes)
    ]

-- The retries of `sendSyncMsg`: a `sendto`, which fails or not by `sent`, and 512 polls. With the
-- result comes the number of calls of `sendto`.
unfoldable pub retry_loop : (ℕ → Bool) → (ℕ → Poll) → ℕ → ℕ → ℕ × ℤ
unfolding poll_loop
retry_loop sent net retries zero = (retries, timeout)
retry_loop sent net retries (suc left) =
    let more = retry_loop sent net (suc retries) left in
    if sent retries
    then elim (poll_loop net (512 * retries) 512) [ none ↦ more | some r ↦ (suc retries, r) ]
    else (suc retries, tx_error)

unfoldable pub send_sync_msg : (ℕ → Bool) → (ℕ → Poll) → ℕ × ℤ
unfolding retry_loop
send_sync_msg sent net = retry_loop sent net 0 3

-- The first message, which tells the player's name; `junk` stands for the bytes that `sendbuf` held.
unfoldable pub hello_msg : ℕ → List ℕ → List ℕ
hello_msg junk player = Msg.hello ∷ c_field 16 junk player

-- `initConnection`, from whether the host was found, the socket that was made and the answer.
unfoldable pub init_connection : Bool → ℤ → (ℕ → Bool) → (ℕ → Poll) → List ℕ → ℤ
unfolding send_sync_msg
init_connection found sockfd sent net rxbuf =
    if found
    then (if ltb_ℤ sockfd (pos 0)
        then negsuc 1
        else (let rc = (send_sync_msg sent net).1 in
            if ltb_ℤ rc (pos 0) then rc else answer (get_elem? rxbuf 1)))
    else negsuc 0
  where
    answer : Option ℕ → ℤ
    answer none = pos 0
    answer (some b) = if b == Msg.ack_too_many then negsuc 4 else pos 0

-- The messages to the server.
abbrev pub ready_to_matchmake : List ℕ
ready_to_matchmake = Msg.mm_start ∷ []

abbrev pub send_join_team : ℕ → List ℕ
send_join_team team = Msg.team_request ∷ team % 256 ∷ []

abbrev pub send_player_rdy : List ℕ
send_player_rdy = Msg.mm_ready ∷ []

abbrev pub send_matchmake_stop : List ℕ
send_matchmake_stop = Msg.mm_stop ∷ []

-- How `messageloop` goes on behind a message; it does not step over the byte of a ping.
unfoldable pub reading : ℕ → List ℕ → Reading
reading id rest =
    if id == Msg.clr_player_list
    then next 0
    else if id == Msg.matchmake_msg
    then next 19
    else if id == Msg.message_msg
    then next 43
    else if id == Msg.ping_msg
    then next 0
    else if id == Msg.mm_startable
    then next 1
    else if id == Msg.mm_exit
    then last 0
    else dump

-- What is put on the screen, at a row and a column, and what else a message does.
pub data Shown : Type 0 where
  text_at : ℕ → ℕ → List ℕ → Shown
  marked_at : ℕ → ℕ → List ℕ → Shown
  clear_player_list : Shown
  pong leave : Shown

-- A player's line, with a mark in front of the name of one who is ready.
unfoldable pub display_matchmake : List ℕ → List Shown
display_matchmake (team ∷ playernum ∷ flags ∷ name) =
    let vpos = if ltb team 2 then 13 + playernum else 19 + playernum in
    let hpos = if team == 1 then 20 else 1 in
    if flags % 2 == 1
    then marked_at (vpos % 256) (hpos - 1) (c_text name) ∷ []
    else text_at (vpos % 256) hpos (c_text name) ∷ []
display_matchmake _ = []

unfoldable pub set_startable : ℕ → List Shown
set_startable b = text_at 9 7 (if b == 0 then replicate 23 32 else codes "S to start game") ∷ []

-- What a message does.
unfoldable pub deeds_of : ℕ × List ℕ → List Shown
unfolding display_matchmake set_startable
deeds_of (id, msg) =
    if id == Msg.clr_player_list
    then clear_player_list ∷ []
    else if id == Msg.matchmake_msg
    then display_matchmake msg
    else if id == Msg.message_msg
    then text_at 20 0 (c_text (drop 1 msg)) ∷ []
    else if id == Msg.ping_msg
    then pong ∷ []
    else if id == Msg.mm_startable
    then first_startable msg
    else if id == Msg.mm_exit
    then leave ∷ []
    else []
  where
    first_startable : List ℕ → List Shown
    first_startable [] = []
    first_startable (b ∷ rest) = set_startable b

unfoldable pub act_on : List (ℕ × List ℕ) → List Shown
unfolding deeds_of
act_on [] = []
act_on (m ∷ ms) = deeds_of m ++ act_on ms

-- One datagram in `messageloop`.
-- `none` reads behind it.
unfoldable pub receive : List ℕ → Option (List Shown)
unfolding walk_datagram reading act_on
receive rxbuf = Option.map act_on (walk_datagram reading rxbuf)

-- What a key of the lobby sends.
unfoldable pub key_msg : ℕ → Option (List ℕ)
key_msg kb =
    if kb == b'1'
    then some (send_join_team 0)
    else if kb == b'2'
    then some (send_join_team 1)
    else if kb == b'0'
    then some send_player_rdy
    else if kb == b's'
    then some send_matchmake_stop
    else none

-- `getMatchmakeInput` for the lockout before it and the key that is ready, if there is one: the
-- lockout after it, and what is sent.
abbrev pub lock : ℕ → Option (List ℕ) → ℕ × Option (List ℕ)
lock l none = (l, none)
lock l (some m) = (512, some m)

unfoldable pub get_matchmake_input : Option ℕ → ℕ → ℕ × Option (List ℕ)
unfolding key_msg
get_matchmake_input none lockout = (lockout - 1, none)
get_matchmake_input (some kb) lockout =
    if lockout - 1 == 0 then lock 0 (key_msg kb) else (lockout - 1, none)

-- Blanks in a name become underscores.
unfoldable pub replace_spaces : List ℕ → List ℕ
replace_spaces [] = []
replace_spaces (c ∷ s) = (if c == 32 then 95 else c) ∷ replace_spaces s
