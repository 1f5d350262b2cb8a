-- ===== src/Ctf/Client/Panel.antt =====
-- The texts and the flag indicator beside a player's screen: updateScoreboard, setMsgArea,
-- updateMsgArea, flagAlert, flashFlagIndicator and quietenFlagIndicator of
-- examples/ctfgame/client/print.c, and gameOver of client/gameover.c.
pub mod Line
pub mod Flag
pub mod Result
use spectranet.Base.{
  ℕ, zero, suc, ◌+◌, ◌%◌, ◌/◌, ◌==◌, ltb, if◌then◌else◌, Bool, not, ◌&&◌, ◌||◌, Option, none, some,
  List, [], ◌∷◌, ◌++◌, get_elem?, take, drop, length, c_text, ◌>>=◌,
}

-- The globals of print.c, and the bytes of the memory with the colours of the screen.
pub record Panel : Type 0 where
  pub gamemsg : List ℕ
  pub msglen : ℕ
  pub msgpos : ℕ
  pub printpos : ℕ
  pub flagindbg : ℕ
  pub memory : ℕ → ℕ

-- The message of a datagram is put into `gamemsg`: what fits 42 bytes with its end.
unfoldable pub set_msg_area : List ℕ → Panel → Panel
set_msg_area [] p = p
set_msg_area (msgsz ∷ message) p =
    let text = take 41 (c_text message) in
    record p {
      gamemsg = text ++ (0 ∷ drop (length text + 1) p.gamemsg);
      msgpos = 0;
      printpos = 0;
      msglen = msgsz;
    }

-- What is printed: the column and the character.
abbrev put_char : ℕ → Panel → Panel × List (ℕ × ℕ)
put_char ch p = (
  record p {
    printpos = if not (ch == 0xC3) && not (ch == 0xC2) then (p.printpos + 1) % 256 else p.printpos;
    msgpos = (p.msgpos + 1) % 256;
  },
  (p.printpos, ch) ∷ [],
)

-- The next character of the message, if there is one left; `none` reads behind `gamemsg`.
unfoldable pub update_msg_area : Panel → Option (Panel × List (ℕ × ℕ))
update_msg_area p =
    if p.msgpos == p.msglen
    then some (p, [])
    else (do ch ← get_elem? p.gamemsg p.msgpos; some (put_char ch p))

-- A number of calls, and all that they print.
unfoldable pub update_times : ℕ → Panel → Option (Panel × List (ℕ × ℕ))
unfolding update_msg_area
update_times zero p = some (p, [])
update_times (suc n) p = do
  (q, first) ← update_msg_area p
  (r, more) ← update_times n q
  some (r, first ++ more)

-- The parts of the score board.
pub data Place : Type 0 where
  energy ammo red_score blue_score lives : Place

-- What `updateScoreboard` shows of a number message, and where.
unfoldable pub update_scoreboard : List ℕ → List (Place × List ℕ)
update_scoreboard [] = []
update_scoreboard (numtype ∷ message) =
    if numtype == 0
    then (ammo, c_text message) ∷ []
    else if numtype == 1
    then (energy, c_text message) ∷ []
    else if numtype == 3
    then (red_score, c_text message) ∷ []
    else if numtype == 2
    then (blue_score, c_text message) ∷ []
    else if numtype == 5
    then (lives, c_text message) ∷ []
    else []

unfoldable pub poke : ℕ → ℕ → Panel → Panel
poke addr b p = record p { memory = λ a. if a == addr then b else p.memory a }

-- The bytes of the screen's colours start at 0x5800; the indicator's are three rows of three.
unfoldable pub quieten_flag_indicator : Panel → Panel
unfolding poke
quieten_flag_indicator p =
    let b = p.flagindbg in
    poke 0x5a9f b (
      poke 0x5a9e b (
        poke 0x5a9d b (
          poke 0x5a7f b
            (poke 0x5a7e b (poke 0x5a7d b (poke 0x5a5f b (poke 0x5a5e b (poke 0x5a5d b p))))))))

-- The byte of a sector: bits 4 to 6 are its row, bits 0 to 2 its column.
unfoldable pub sector_addr : ℕ → ℕ
sector_addr sector =
    0x5a00
    + ((if sector / 16 % 8 == 0 then 0x5d else if sector / 16 % 8 == 1 then 0x7d else 0x9d)
        + sector % 8)
      % 256

-- The flash bit is the highest one.
unfoldable pub flash_flag_indicator : ℕ → Panel → Panel
unfolding poke sector_addr
flash_flag_indicator sector p =
    poke (sector_addr sector) (if ltb p.flagindbg 128 then p.flagindbg + 128 else p.flagindbg) p

unfoldable pub flag_alert : ℕ → Panel → Panel
unfolding quieten_flag_indicator flash_flag_indicator
flag_alert msg p =
    let quiet = quieten_flag_indicator p in
    if msg == 0xFF then quiet else flash_flag_indicator msg quiet

-- What is shown at the end of a match.
pub data Outcome : Type 0 where
  defeat victory score_draw no_lives nothing : Outcome

unfoldable pub show_result_panel : ℕ → Outcome
show_result_panel winner =
    if winner == 0 then defeat else if winner == 1 then victory else score_draw

-- The outcome and the two scores of a `GameEnd` message.
unfoldable pub game_over : List ℕ → Option (Outcome × List ℕ × List ℕ)
unfolding show_result_panel
game_over (reason ∷ winner ∷ scores) = some (
  (if reason == 0 then show_result_panel winner else if reason == 1 then no_lives else nothing),
  c_text (take 4 scores),
  c_text (drop 4 scores),
)
game_over _ = none
