-- ===== src/Ctf/Client/InputBox.antt =====
-- The input box of the client: resetinput, clearArea, colourArea, moveToCurrent and handleKey of
-- examples/ctfgame/client/mminput.c. What is shown is kept as a list of what is written, oldest first.
pub mod Shape
pub mod Text
use spectranet.Base.{
  ℕ, ◌+◌, ◌-◌, ◌%◌, Bool, true, false, ◌||◌, List, [], ◌∷◌, ◌++◌, set, replicate, ltb, leb,
  if◌then◌else◌, ◌==◌, not,
}

-- `INPUTSZ`.
abbrev pub input_size : ℕ
input_size = 140

-- A character or a text that goes to the console, and the area filled with blanks or with colours.
pub data Shown : Type 0 where
  put : ℕ → Shown
  printed : List ℕ → Shown
  blanked : ℕ → ℕ → Shown
  coloured : ℕ → ℕ → Shown

-- The globals; the places of the box are of type `char`, which the model reads without a sign.
-- `spilled` marks a write behind `inputbuf`.
pub record Box : Type 0 where
  pub inputbuf : List ℕ
  pub inputidx : ℕ
  pub startx : ℕ
  pub starty : ℕ
  pub width : ℕ
  pub height : ℕ
  pub curx : ℕ
  pub cury : ℕ
  pub limit : ℕ
  pub ispasswd : Bool
  pub input_ready : Bool
  pub debounce_enter : Bool
  pub spilled : Bool
  pub shown : List Shown

unfoldable pub show : List Shown → Box → Box
show l b = record b { shown = b.shown ++ l }

-- `clearArea` and `colourArea` leave the cursor at the top left of the box.
unfoldable pub clear_area : ℕ → ℕ → Box → Box
unfolding show
clear_area ink paper b = record (show (blanked ink paper ∷ []) b) {
  curx = b.startx;
  cury = b.starty;
}

unfoldable pub colour_area : ℕ → ℕ → Box → Box
unfolding show
colour_area ink paper b = record (show (coloured ink paper ∷ []) b) {
  curx = b.startx;
  cury = b.starty;
}

unfoldable pub move_to_current : Box → Box
unfolding show
move_to_current b = show (put 22 ∷ put (32 + b.cury) ∷ put (32 + b.curx) ∷ []) b

-- `resetinput` for a box and the length of its text.
unfoldable pub resetinput : ℕ → ℕ → ℕ → ℕ → ℕ → Box → Box
unfolding clear_area show
resetinput sx sy wid hgt len b =
    let placed = show (put 1 ∷ put 32 ∷ []) (record b {
      input_ready = false;
      startx = sx % 256;
      starty = sy % 256;
      width = wid % 256;
      height = hgt % 256;
      limit = len;
      debounce_enter = false;
      curx = sx % 256;
      cury = sy % 256;
    }) in
    record (clear_area 55 49 placed) { inputbuf = replicate input_size 0; inputidx = 0 }

-- The cursor one place back, on the line before from the left edge.
unfoldable pub step_back : Box → Box
unfolding show move_to_current
step_back b =
    if ltb b.startx b.curx
    then show (printed (8 ∷ 95 ∷ 32 ∷ []) ∷ []) (record b { curx = b.curx - 1 })
    else show (put 95 ∷ []) (
        move_to_current (record (show (put 32 ∷ []) b) {
          cury = (b.cury + 255) % 256;
          curx = (b.startx + b.width + 255) % 256;
        }))

unfoldable pub delete_key : Box → Box
unfolding step_back
delete_key b =
    let d = record b { debounce_enter = true } in
    if d.inputidx == 0
    then d
    else step_back
        (record d { inputidx = d.inputidx - 1; inputbuf = set d.inputbuf (d.inputidx - 1) 0 })

-- Enter: the text gets its end, behind the buffer if the text fills it.
unfoldable pub enter_key : Box → Box
unfolding show colour_area
enter_key b =
    if b.debounce_enter
    then colour_area 6 0 (record (show (put 32 ∷ []) b) {
      inputbuf = set b.inputbuf b.inputidx 0;
      spilled = b.spilled || not (ltb b.inputidx input_size);
      input_ready = true;
    })
    else record b { debounce_enter = true }

-- The cursor one place on, at the right edge to the next line.
unfoldable pub step_on : Box → Box
unfolding move_to_current
step_on b =
    if leb (b.startx + b.width - 1) b.curx
    then move_to_current (record b { curx = b.startx; cury = (b.cury + 1) % 256 })
    else record b { curx = (b.curx + 1) % 256 }

unfoldable pub normal_key : ℕ → Box → Box
unfolding show step_on
normal_key key b =
    let d = record b { debounce_enter = true } in
    if ltb key 32 || ltb 127 key
    then b
    else if leb input_size d.inputidx || leb d.limit d.inputidx
    then d
    else (let moved = step_on (show (put (if d.ispasswd then 42 else key) ∷ []) d) in
        show (put 95 ∷ []) (record moved {
          inputbuf = set moved.inputbuf moved.inputidx key;
          inputidx = moved.inputidx + 1;
        }))

unfoldable pub handle_key : ℕ → Box → Box
unfolding move_to_current delete_key enter_key normal_key
handle_key key b =
    let here = move_to_current b in
    if key == 12 then delete_key here else if key == 13 then enter_key here else normal_key key here
