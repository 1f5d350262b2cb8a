-- ===== src/Irc/Input.antt =====
-- The input line: resetinput, handleKey and checkKey of examples/irc/inputline.c. What the client
-- shows is kept as a list of what it writes, oldest first.
pub mod Line
use spectranet.Base.{
  ℕ, suc, ◌+◌, ◌-◌, ◌*◌, ◌/◌, Bool, true, false, ◌&&◌, ◌||◌, Option, none, some, List, [], ◌∷◌,
  ◌++◌, set, drop, replicate, ltb, leb, if◌then◌else◌, ◌==◌, c_text,
}
use spectranet.Keyboard.{Ring, Pick, idle, outside, picked, pick}

-- `INPUTSZ` and `KBUFSZ`.
abbrev pub input_size : ℕ
input_size = 256

abbrev pub kbuf_size : ℕ
kbuf_size = 32

-- A character or a text that goes to the console, and a cleared bottom line.
pub data Shown : Type 0 where
  put : ℕ → Shown
  printed : List ℕ → Shown
  cleared : Shown

pub record Input : Type 0 where
  pub inputbuf : List ℕ
  pub inputidx : ℕ
  pub charpos : ℕ
  pub input_ready : Bool
  pub allow_blank_string : Bool
  pub shown : List Shown

unfoldable pub show : List Shown → Input → Input
show l i = record i { shown = i.shown ++ l }

unfoldable pub clear_input_area : Input → Input
unfolding show
clear_input_area i = record (show (cleared ∷ []) i) { charpos = 0 }

-- To the start of the bottom line.
abbrev pub line_start : List ℕ
line_start = 22 ∷ 55 ∷ 32 ∷ []

unfoldable pub resetinput : Input → Input
unfolding clear_input_area show
resetinput i =
    let cleared_input =
      clear_input_area (record i { input_ready = false; allow_blank_string = false }) in
    let cursor = show (printed (line_start ++ (95 ∷ [])) ∷ []) cleared_input in
    record cursor { inputbuf = replicate input_size 0; inputidx = 0 }

-- The cursor one place back, or the last block of 64 characters.
unfoldable pub step_back : Input → Input
unfolding show c_text
step_back i =
    if ltb 0 i.charpos
    then (let moved =
          show (printed (8 ∷ 95 ∷ []) ∷ (if ltb i.charpos 63 then put 32 ∷ [] else [])) i in
        record moved { charpos = i.charpos - 1 })
    else (let rclidx = (i.inputidx / 64) * 64 in
        let recalled = printed (line_start ++ (c_text (drop rclidx i.inputbuf) ++ (95 ∷ []))) in
        record (show (recalled ∷ []) i) { charpos = 63 })

unfoldable pub delete_key : Input → Input
unfolding step_back
delete_key i =
    if i.inputidx == 0
    then i
    else step_back
        (record i { inputidx = i.inputidx - 1; inputbuf = set i.inputbuf (i.inputidx - 1) 0 })

-- The line scrolls off the side.
unfoldable pub scroll_off : Input → Input
unfolding clear_input_area show
scroll_off i = if ltb 62 i.charpos then show (printed line_start ∷ []) (clear_input_area i) else i

unfoldable pub normal_key : ℕ → Input → Input
unfolding show scroll_off
normal_key key i =
    if leb input_size i.inputidx
    then i
    else show (put 95 ∷ []) (
        scroll_off (record (show (put key ∷ []) i) {
          charpos = i.charpos + 1;
          inputbuf = set i.inputbuf i.inputidx key;
          inputidx = i.inputidx + 1;
        }))

unfoldable pub handle_key : ℕ → Input → Input
unfolding show delete_key normal_key
handle_key key i =
    let here = show (put 22 ∷ put 55 ∷ put (32 + i.charpos) ∷ []) i in
    if key == 12
    then delete_key here
    else if key == 13
    then (if ltb 0 here.inputidx then record here { input_ready = true } else here)
    else normal_key key here

-- `checkKey`: the line where one is ready, the buffer and the line.
pub data Checked : Type 0 where
  checked : Option (List ℕ) → Ring → Input → Checked
  read_outside : Checked

unfoldable pub handled : ℕ → Ring → Input → Checked
handled k r i =
    if (k == 13) && (i.input_ready || i.allow_blank_string)
    then checked (some i.inputbuf) r i
    else checked none r i

abbrev pub check_pick : Ring → Input → Pick → Checked
unfolding handle_key handled
check_pick r i idle = checked none r i
check_pick r i outside = read_outside
check_pick r i (picked k r') = handled k r' (handle_key k i)

unfoldable pub check_key : Ring → Input → Checked
unfolding pick check_pick
check_key r i = check_pick r i (pick kbuf_size r)
