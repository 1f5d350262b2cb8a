-- ===== src/Ctf/Client/Panel/Line.antt =====
-- The status line types out the message of the server.
use spectranet.Base.{
  ℕ, zero, suc, ◌+◌, ◌%◌, ◌==◌, ◌≤◌, ◌<◌, ◌≡◌, refl, ap, ◌∙◌, arith, if◌then◌else◌, Bool, not, ◌&&◌,
  ◌||◌, true, false, some, List, [], ◌∷◌, ◌++◌, get_elem?, take, take_whole, drop, length,
  c_text-c_field, c_field, Lacks, Gives, Gives-at, Gives-bind, Gives-weaken,
}
use spectranet.Ctf.Client.Panel.{Panel, set_msg_area, update_msg_area, update_times}

-- The first byte of a character that UTF-8 writes with two bytes, of those that the game uses.
abbrev pub leads : ℕ → Bool
leads ch = ch == 0xC3 || ch == 0xC2

-- A text from a column on: the leading bytes take no column.
unfoldable pub columns : ℕ → List ℕ → List (ℕ × ℕ)
columns c [] = []
columns c (x ∷ t) = (c, x) ∷ columns (c + (if leads x then 0 else 1)) t

-- What is left of a message in the buffer.
record IsLeft (p : Panel) (t : List ℕ) : Type 0 where
  ends : p.msglen ≡ p.msgpos + length t
  short : p.msglen < 256
  narrow : p.printpos + length t < 256
  reads : (j k : ℕ) → j < length t → k ≡ p.msgpos + j → get_elem? p.gamemsg k ≡ get_elem? t j

update_none : (p : Panel) → IsLeft p [] → update_msg_area p ≡ some (p, [])
unfolding update_msg_area
update_none p i =
    let ends = i.ends in let done : (p.msgpos == p.msglen) ≡ true = ground arith in rw done refl

-- The panel after a character.
abbrev after_char : ℕ → Panel → Panel
after_char x p = record p {
  printpos = if not (x == 0xC3) && not (x == 0xC2) then (p.printpos + 1) % 256 else p.printpos;
  msgpos = (p.msgpos + 1) % 256;
}

update_next :
    (p : Panel) (x : ℕ) (t : List ℕ)
    → IsLeft p (x ∷ t)
    → update_msg_area p ≡ some (after_char x p, (p.printpos, x) ∷ [])
unfolding update_msg_area
update_next p x t i =
    let ends = i.ends in
    let left : (p.msgpos == p.msglen) ≡ false = ground arith in
    rw (left, i.reads 0 p.msgpos (omega arith) (omega arith)) refl

after_char-IsLeft : (p : Panel) (x : ℕ) (t : List ℕ) → IsLeft p (x ∷ t) → IsLeft (after_char x p) t
after_char-IsLeft p x t i =
    let ends = i.ends in
    let short = i.short in
    let narrow = i.narrow in
    record {
      ends = omega arith;
      short = short;
      narrow = ground arith;
      reads = λ j k h e. i.reads (suc j) k (omega arith) (omega arith);
    }

column_step :
    (c x : ℕ) (t : List ℕ)
    → c + suc (length t) < 256
    → (if not (x == 0xC3) && not (x == 0xC2) then (c + 1) % 256 else c)
      ≡ c + (if leads x then 0 else 1)
column_step c x t h = ground arith

update_times-IsLeft :
    (n : ℕ) (p : Panel) (t : List ℕ)
    → IsLeft p t
    → Gives (λ r. r.1 ≡ take n (columns p.printpos t)) (update_times n p)
unfolding update_times columns
update_times-IsLeft zero p t i = refl
update_times-IsLeft (suc n) p [] i = Gives-at _ (update_msg_area p) _ (update_none p i) (
    Gives-bind (λ r. r.1 ≡ take n (columns p.printpos [])) _ (update_times n p) _
      (update_times-IsLeft n p [] i) (λ r h. h ∙ take_whole n [] (omega arith)))
update_times-IsLeft (suc n) p (x ∷ t) i = Gives-at _ (update_msg_area p) _ (update_next p x t i) (
    Gives-bind (λ r. r.1 ≡ take n (columns (after_char x p).printpos t)) _
      (update_times n (after_char x p)) _
      (update_times-IsLeft n (after_char x p) t (after_char-IsLeft p x t i))
      (λ r h.
        ap (λ l. (p.printpos, x) ∷ l)
          (h ∙ ap (λ c. take n (columns c t)) (column_step p.printpos x t i.narrow))))

get-append :
    (t r : List ℕ) (j k : ℕ) → j < length t → k ≡ 0 + j → get_elem? (t ++ r) k ≡ get_elem? t j
get-append t r j k h e = ap (get_elem? (t ++ r)) (omega arith) ∙ low t r j h
  where
    low : (u v : List ℕ) (i : ℕ) → i < length u → get_elem? (u ++ v) i ≡ get_elem? u i
    low [] v i l = let bad : 1 ≤ 0 = omega arith in elim bad [ ]
    low (x ∷ u) v zero l = refl
    low (x ∷ u) v (suc i) l = low u v i (omega arith)

set_msg_area-IsLeft :
    (p : Panel) (junk : ℕ) (t : List ℕ)
    → length t ≤ 41
    → Lacks 0 t
    → IsLeft (set_msg_area (length t ∷ c_field 42 junk t) p) t
unfolding set_msg_area
set_msg_area-IsLeft p junk t h no_nul =
    let e = ap (take 41) (c_text-c_field 42 junk t (omega arith) no_nul) ∙ take_whole 41 t h in
    record {
      ends = omega arith;
      short = omega arith;
      narrow = omega arith;
      reads = λ j k l q.
          ap (λ u. get_elem? (u ++ (0 ∷ drop (length u + 1) p.gamemsg)) k) e
          ∙ get-append t _ j k l q;
    }

fresh_line : (p : Panel) (n : ℕ) (m : List ℕ) → (set_msg_area (n ∷ m) p).printpos ≡ 0
unfolding set_msg_area
fresh_line p n m = refl

-- When a status line of at most 41 bytes, none of them NUL, arrives as the server sends it, any
-- number of calls print its first characters in their order, one with each call until the text
-- ends, each in the column that counts the bytes before it but for those that lead a pair, and
-- never read behind the buffer.
pub update_times-set_msg_area :
    (n : ℕ) (p : Panel) (junk : ℕ) (t : List ℕ)
    → length t ≤ 41
    → Lacks 0 t
    → Gives
        (λ r. r.1 ≡ take n (columns 0 t))
        (update_times n (set_msg_area (length t ∷ c_field 42 junk t) p))
update_times-set_msg_area n p junk t h no_nul =
    let q = set_msg_area (length t ∷ c_field 42 junk t) p in
    Gives-weaken (λ r. r.1 ≡ take n (columns q.printpos t)) _ (update_times n q)
      (λ r e. e ∙ ap (λ c. take n (columns c t)) (fresh_line p (length t) (c_field 42 junk t)))
      (update_times-IsLeft n q t (set_msg_area-IsLeft p junk t h no_nul))
