-- ===== src/Ctf/Client/InputBox/Shape.antt =====
-- What holds of the input box between two keys.
use spectranet.Base.{
  ℕ, ◌+◌, ◌-◌, ◌%◌, ◌<◌, ◌≤◌, ◌≡◌, refl, arith, Bool, true, false, List, [], length, if◌then◌else◌,
}
use spectranet.Keyboard.Edit.{IsLine, empty-IsLine}
use spectranet.Ctf.Client.InputBox.{Box, Shown, input_size, show, clear_area, resetinput}

-- The cursor's column is in a box at `sx` that is `wid` wide and ends within the 127 columns that a
-- `char` has with or without a sign.
pub record IsCursor (sx wid startx width curx : ℕ) : Type 0 where
  pub left : startx ≡ sx
  pub wide : width ≡ wid
  pub from : sx ≤ curx
  pub to : curx < sx + wid
  pub ends : sx + wid ≤ 127

-- A box for a text of `limit`: it holds a text, its cursor is between its edges, and nothing was
-- written behind the buffer.
pub record IsBox (limit sx wid : ℕ) (t : List ℕ) (b : Box) : Type 0 where
  pub line : IsLine input_size t b.inputbuf b.inputidx
  pub within : length t ≤ limit
  pub bound : b.limit ≡ limit
  pub inside : b.spilled ≡ false
  pub cursor : IsCursor sx wid b.startx b.width b.curx

if-IsCursor :
    (sx wid l w : ℕ) (c : Bool) (x y : ℕ)
    → IsCursor sx wid l w x
    → IsCursor sx wid l w y
    → IsCursor sx wid l w (if c then x else y)
if-IsCursor sx wid l w true x y p q = p
if-IsCursor sx wid l w false x y p q = q

pub home : (sx wid l w x : ℕ) → IsCursor sx wid l w x → IsCursor sx wid l w l
home sx wid l w x c =
    let left = c.left in
    let from = c.from in
    let to = c.to in
    record { left = left; wide = c.wide; from = omega arith; to = omega arith; ends = c.ends }

pub edge : (sx wid l w x : ℕ) → IsCursor sx wid l w x → IsCursor sx wid l w ((l + w + 255) % 256)
edge sx wid l w x c =
    let left = c.left in
    let wide = c.wide in
    let from = c.from in
    let to = c.to in
    let ends = c.ends in
    let back : (l + w + 255) % 256 ≡ l + w - 1 = omega arith in
    record { left = left; wide = wide; from = omega arith; to = omega arith; ends = ends }

-- A box with another line.
pub typed :
    (limit sx wid : ℕ) (t u : List ℕ) (b : Box) (buf : List ℕ) (i : ℕ)
    → IsBox limit sx wid t b
    → IsLine input_size u buf i
    → length u ≤ limit
    → IsBox limit sx wid u (record b { inputbuf = buf; inputidx = i; debounce_enter = true })
typed limit sx wid t u b buf i p l h = record {
  line = l;
  within = h;
  bound = p.bound;
  inside = p.inside;
  cursor = p.cursor;
}

-- A box with another cursor.
pub placed :
    (limit sx wid : ℕ) (t : List ℕ) (b : Box) (x y : ℕ) (l : List Shown)
    → IsBox limit sx wid t b
    → IsCursor sx wid b.startx b.width x
    → IsBox limit sx wid t (record b { curx = x; cury = y; shown = l })
placed limit sx wid t b x y l p c = record {
  line = p.line;
  within = p.within;
  bound = p.bound;
  inside = p.inside;
  cursor = c;
}

pub resetinput-IsBox :
    (sx sy wid hgt limit : ℕ) (b : Box)
    → 0 < wid
    → sx + wid ≤ 127
    → b.spilled ≡ false
    → IsBox limit sx wid [] (resetinput sx sy wid hgt limit b)
unfolding resetinput clear_area show
resetinput-IsBox sx sy wid hgt limit b some_width ends unspilled = record {
  line = empty-IsLine input_size;
  within = omega arith;
  bound = refl;
  inside = unspilled;
  cursor = record {
    left = omega arith;
    wide = omega arith;
    from = omega arith;
    to = omega arith;
    ends = ends;
  };
}
