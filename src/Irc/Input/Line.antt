-- ===== src/Irc/Input/Line.antt =====
-- The input line holds what was typed, and the cursor stays on its line.
use spectranet.Base.{
  ℕ, ◌+◌, ◌≤◌, ◌≡◌, subst, arith, Bool, true, false, Bool-cases, inl, inr, List, [], ◌∷◌, ◌++◌,
  length, ltb, leb, if◌then◌else◌, ◌==◌,
}
use spectranet.Keyboard.Edit.{
  drop_last, drop_last_none, type_in, IsLine, empty-IsLine, insert-IsLine, delete-IsLine,
}
use spectranet.Irc.Input.{
  Input, Shown, put, input_size, show, clear_input_area, resetinput, step_back, delete_key,
  scroll_off, normal_key, handle_key,
}

-- What a key does to the text of the line.
unfoldable pub edit : ℕ → List ℕ → List ℕ
unfolding type_in drop_last
edit key t = if key == 12 then drop_last t else if key == 13 then t else type_in input_size key t

-- What a sequence of keys makes of a text, and of the line.
unfoldable pub edit_all : List ℕ → List ℕ → List ℕ
unfolding edit
edit_all [] t = t
edit_all (k ∷ ks) t = edit_all ks (edit k t)

unfoldable pub handle_keys : List ℕ → Input → Input
unfolding handle_key
handle_keys [] i = i
handle_keys (k ∷ ks) i = handle_keys ks (handle_key k i)

-- The line holds a text, and the cursor is in the columns 0 to 63.
pub record IsInput (t : List ℕ) (i : Input) : Type 0 where
  pub line : IsLine input_size t i.inputbuf i.inputidx
  pub column : i.charpos ≤ 63

if-IsInput :
    (t : List ℕ) (b : Bool) (i j : Input)
    → IsInput t i
    → IsInput t j
    → IsInput t (if b then i else j)
if-IsInput t true i j p q = p
if-IsInput t false i j p q = q

resetinput-IsInput : (i : Input) → IsInput [] (resetinput i)
unfolding resetinput clear_input_area show
resetinput-IsInput i = record { line = empty-IsLine input_size; column = omega arith }

show-IsInput : (t : List ℕ) (l : List Shown) (i : Input) → IsInput t i → IsInput t (show l i)
unfolding show
show-IsInput t l i p = record { line = p.line; column = p.column }

step_back-IsInput : (t : List ℕ) (i : Input) → IsInput t i → IsInput t (step_back i)
unfolding step_back show
step_back-IsInput t i p =
    let column = p.column in
    if-IsInput t (ltb 0 i.charpos) _ _ (record { line = p.line; column = omega arith })
      (record { line = p.line; column = omega arith })

delete_key-IsInput : (t : List ℕ) (i : Input) → IsInput t i → IsInput (drop_last t) (delete_key i)
unfolding delete_key drop_last
delete_key-IsInput t i p =
    let line = p.line in
    let at_end = line.at_end in
    elim (Bool-cases (i.inputidx == 0)) [
      | inl e ↦
          let none : length t ≡ 0 = ground arith in
          rw e (subst (λ u. IsInput u i) (drop_last_none t none) p)
      | inr e ↦ rw e (
          step_back-IsInput (drop_last t) _ (record {
            line = delete-IsLine input_size t i.inputbuf i.inputidx line (ground arith);
            column = p.column;
          }))
    ]

scroll_off-IsInput :
    (t : List ℕ) (i : Input) → IsLine input_size t i.inputbuf i.inputidx → IsInput t (scroll_off i)
unfolding scroll_off clear_input_area show
scroll_off-IsInput t i l = elim (Bool-cases (ltb 62 i.charpos)) [
  | inl e ↦ rw e (record { line = l; column = omega arith })
  | inr e ↦ rw e (record { line = l; column = ground arith })
]

normal_key-IsInput :
    (t : List ℕ) (k : ℕ) (i : Input)
    → IsInput t i
    → IsInput (type_in input_size k t) (normal_key k i)
unfolding normal_key type_in show
normal_key-IsInput t k i p =
    let line = p.line in
    let at_end = line.at_end in
    elim (Bool-cases (leb input_size i.inputidx)) [
      | inl full ↦
          let no_room : ltb (length t) input_size ≡ false = ground arith in rw (full, no_room) p
      | inr more ↦
          let room : ltb (length t) input_size ≡ true = ground arith in
          rw (more, room)
            (show-IsInput (t ++ (k ∷ [])) _ _ (
              scroll_off-IsInput (t ++ (k ∷ [])) _
                (insert-IsLine input_size k t i.inputbuf i.inputidx line (ground arith))))
    ]

handle_key-IsInput :
    (t : List ℕ) (k : ℕ) (i : Input) → IsInput t i → IsInput (edit k t) (handle_key k i)
unfolding handle_key edit show
handle_key-IsInput t k i p =
    let here = show-IsInput t (put 22 ∷ put 55 ∷ put (32 + i.charpos) ∷ []) i p in
    elim (Bool-cases (k == 12)) [
      | inl e ↦ rw e (delete_key-IsInput t _ here)
      | inr e ↦ elim (Bool-cases (k == 13)) [
        | inl f ↦ rw (e, f) (if-IsInput t _ _ _ (record { line = p.line; column = p.column }) here)
        | inr f ↦ rw (e, f) (normal_key-IsInput t k _ here)
      ]
    ]

handle_keys-IsInput :
    (ks t : List ℕ) (i : Input) → IsInput t i → IsInput (edit_all ks t) (handle_keys ks i)
unfolding handle_keys edit_all
handle_keys-IsInput [] t i p = p
handle_keys-IsInput (k ∷ ks) t i p =
    handle_keys-IsInput ks (edit k t) (handle_key k i) (handle_key-IsInput t k i p)

-- Whatever is typed after `resetinput`: the buffer holds the text that the keys make, in its order
-- and cut at 256 characters, and 0 in all of its 256 bytes behind that, of which a text of 256
-- characters leaves none; the index is at the end of the text, and the cursor's column is 63 at most.
pub handle_keys-resetinput :
    (ks : List ℕ) (i : Input) → IsInput (edit_all ks []) (handle_keys ks (resetinput i))
handle_keys-resetinput ks i = handle_keys-IsInput ks [] (resetinput i) (resetinput-IsInput i)
