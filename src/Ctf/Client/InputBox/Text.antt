-- ===== src/Ctf/Client/InputBox/Text.antt =====
-- The box holds what was typed, and the cursor stays in it.
use spectranet.Base.{
  ℕ, ◌+◌, ◌-◌, ◌%◌, ◌≤◌, ◌<◌, ◌≡◌, ap, subst, arith, true, false, ◌||◌, Bool-cases, inl, inr, List,
  [], ◌∷◌, ◌++◌, length, length-append, set, ltb, leb, if◌then◌else◌, ◌==◌,
}
use spectranet.Keyboard.Edit.{
  drop_last, drop_last_none, length-drop_last, type_in, insert-IsLine, delete-IsLine, close-IsLine,
}
use spectranet.Ctf.Client.InputBox.{
  Box, put, input_size, show, colour_area, move_to_current, resetinput, step_back, step_on,
  delete_key, enter_key, normal_key, handle_key,
}
use spectranet.Ctf.Client.InputBox.Shape.{IsBox, home, edge, typed, placed, resetinput-IsBox}

-- What a key does to a text of at most `limit`.
unfoldable pub edit : ℕ → ℕ → List ℕ → List ℕ
unfolding type_in drop_last
edit limit key t =
    if key == 12
    then drop_last t
    else if (key == 13) || (ltb key 32 || ltb 127 key)
    then t
    else type_in limit key t

unfoldable pub edit_all : ℕ → List ℕ → List ℕ → List ℕ
unfolding edit
edit_all limit [] t = t
edit_all limit (k ∷ ks) t = edit_all limit ks (edit limit k t)

unfoldable pub handle_keys : List ℕ → Box → Box
unfolding handle_key
handle_keys [] b = b
handle_keys (k ∷ ks) b = handle_keys ks (handle_key k b)

module _ (limit sx wid : ℕ) where
  move_to_current-IsBox :
      (t : List ℕ) (b : Box) → IsBox limit sx wid t b → IsBox limit sx wid t (move_to_current b)
  unfolding move_to_current show
  move_to_current-IsBox t b p = placed limit sx wid t b b.curx b.cury _ p p.cursor

  step_back-IsBox :
      (t : List ℕ) (b : Box) → IsBox limit sx wid t b → IsBox limit sx wid t (step_back b)
  unfolding step_back show move_to_current
  step_back-IsBox t b p =
      let c = p.cursor in
      let left = c.left in
      let from = c.from in
      let to = c.to in
      elim (Bool-cases (ltb b.startx b.curx)) [
        | inl e ↦ rw e (
            placed limit sx wid t b (b.curx - 1) b.cury _ p (record {
              left = left;
              wide = c.wide;
              from = ground arith;
              to = omega arith;
              ends = c.ends;
            }))
        | inr e ↦ rw e (placed limit sx wid t b _ _ _ p (edge sx wid b.startx b.width b.curx c))
      ]

  step_on-IsBox : (t : List ℕ) (b : Box) → IsBox limit sx wid t b → IsBox limit sx wid t (step_on b)
  unfolding step_on show move_to_current
  step_on-IsBox t b p =
      let c = p.cursor in
      let left = c.left in
      let wide = c.wide in
      let from = c.from in
      let to = c.to in
      let ends = c.ends in
      elim (Bool-cases (leb (b.startx + b.width - 1) b.curx)) [
        | inl e ↦ rw e (placed limit sx wid t b _ _ _ p (home sx wid b.startx b.width b.curx c))
        | inr e ↦ rw e (
            placed limit sx wid t b ((b.curx + 1) % 256) b.cury b.shown p (record {
              left = left;
              wide = wide;
              from = ground arith;
              to = ground arith;
              ends = ends;
            }))
      ]

  delete_key-IsBox :
      (t : List ℕ) (b : Box)
      → IsBox limit sx wid t b
      → IsBox limit sx wid (drop_last t) (delete_key b)
  unfolding delete_key drop_last
  delete_key-IsBox t b p =
      let line = p.line in
      let at_end = line.at_end in
      let within = p.within in
      let long = length-drop_last t in
      elim (Bool-cases (b.inputidx == 0)) [
        | inl e ↦
            let none : length t ≡ 0 = ground arith in
            rw e (
              subst (λ u. IsBox limit sx wid u (record b { debounce_enter = true }))
                (drop_last_none t none)
                (typed limit sx wid t t b b.inputbuf b.inputidx p line within))
        | inr e ↦ rw e (
            step_back-IsBox (drop_last t) _ (
              typed limit sx wid t (drop_last t) b _ _ p
                (delete-IsLine input_size t b.inputbuf b.inputidx line (ground arith))
                (omega arith)))
      ]

  enter_key-IsBox :
      (t : List ℕ) (b : Box)
      → limit < input_size
      → IsBox limit sx wid t b
      → IsBox limit sx wid t (enter_key b)
  unfolding enter_key colour_area show
  enter_key-IsBox t b short p =
      let line = p.line in
      let at_end = line.at_end in
      let within = p.within in
      let room : ltb b.inputidx input_size ≡ true = ground arith in
      elim (Bool-cases b.debounce_enter) [
        | inl e ↦
            rw (e, room)
              (record {
                line = close-IsLine input_size t b.inputbuf b.inputidx line;
                within = within;
                bound = p.bound;
                inside = ap (λ s. s || false) p.inside;
                cursor = home sx wid b.startx b.width b.curx p.cursor;
              })
        | inr e ↦ rw e (typed limit sx wid t t b b.inputbuf b.inputidx p line within)
      ]

  stored :
      (t : List ℕ) (k : ℕ) (b : Box)
      → IsBox limit sx wid t b
      → limit < input_size
      → length t < limit
      → IsBox limit sx wid (t ++ (k ∷ [])) (
          show
            (put 95 ∷ [])
            (record b { inputbuf = set b.inputbuf b.inputidx k; inputidx = b.inputidx + 1 }))
  unfolding show
  stored t k b p short room =
      let line = p.line in
      let at_end = line.at_end in
      record {
        line = insert-IsLine input_size k t b.inputbuf b.inputidx line (omega arith);
        within = omega (arith, length-append t (k ∷ []));
        bound = p.bound;
        inside = p.inside;
        cursor = p.cursor;
      }

  normal_key-IsBox :
      (t : List ℕ) (k : ℕ) (b : Box)
      → limit < input_size
      → IsBox limit sx wid t b
      → IsBox limit sx wid (if ltb k 32 || ltb 127 k then t else type_in limit k t) (normal_key k b)
  unfolding normal_key type_in show
  normal_key-IsBox t k b short p =
      let line = p.line in
      let at_end = line.at_end in
      let within = p.within in
      let bound = p.bound in
      elim (Bool-cases (ltb k 32 || ltb 127 k)) [
        | inl e ↦ rw e p
        | inr e ↦ elim (Bool-cases (leb input_size b.inputidx || leb b.limit b.inputidx)) [
          | inl full ↦
              let no_room : ltb (length t) limit ≡ false = ground arith in
              rw (e, full, no_room) (typed limit sx wid t t b b.inputbuf b.inputidx p line within)
          | inr more ↦
              let room : ltb (length t) limit ≡ true = ground arith in
              rw (e, more, room)
                (stored t k _
                  (step_on-IsBox t _ (
                    placed limit sx wid t (record b { debounce_enter = true }) b.curx b.cury _
                      (typed limit sx wid t t b b.inputbuf b.inputidx p line within) p.cursor))
                  short (ground arith))
        ]
      ]

  handle_key-IsBox :
      (t : List ℕ) (k : ℕ) (b : Box)
      → limit < input_size
      → IsBox limit sx wid t b
      → IsBox limit sx wid (edit limit k t) (handle_key k b)
  unfolding handle_key edit
  handle_key-IsBox t k b short p =
      let here = move_to_current-IsBox t b p in
      elim (Bool-cases (k == 12)) [
        | inl e ↦ rw e (delete_key-IsBox t _ here)
        | inr e ↦ elim (Bool-cases (k == 13)) [
          | inl f ↦ rw (e, f) (enter_key-IsBox t _ short here)
          | inr f ↦ rw (e, f) (normal_key-IsBox t k _ short here)
        ]
      ]

  handle_keys-IsBox :
      (ks t : List ℕ) (b : Box)
      → limit < input_size
      → IsBox limit sx wid t b
      → IsBox limit sx wid (edit_all limit ks t) (handle_keys ks b)
  unfolding handle_keys edit_all
  handle_keys-IsBox [] t b short p = p
  handle_keys-IsBox (k ∷ ks) t b short p =
      handle_keys-IsBox ks (edit limit k t) (handle_key k b) short (handle_key-IsBox t k b short p)

-- Whatever is typed into a box that is wider than 0 and ends within the first 127 columns, for a text
-- of less than 140 characters: the buffer holds the text that the keys make, in its order, cut at that length and with 0 behind it,
-- the index is at its end, no byte is written behind the buffer, and the cursor's column stays
-- between the edges of the box.
pub handle_keys-resetinput_box :
    (ks : List ℕ) (sx sy wid hgt limit : ℕ) (b : Box)
    → 0 < wid
    → sx + wid ≤ 127
    → limit < input_size
    → b.spilled ≡ false
    → IsBox limit sx wid (edit_all limit ks []) (handle_keys ks (resetinput sx sy wid hgt limit b))
handle_keys-resetinput_box ks sx sy wid hgt limit b some_width ends short unspilled =
    handle_keys-IsBox limit sx wid ks [] (resetinput sx sy wid hgt limit b) short
      (resetinput-IsBox sx sy wid hgt limit b some_width ends unspilled)
