-- ===== src/Http/Data/Front.antt =====
-- What `recv` is handed of the bytes that are still to come.
use spectranet.Base.{
  ℕ, zero, suc, ◌-◌, ◌≤◌, ◌≡◌, refl, ap, sym, ◌∙◌, subst, arith, ℤ, pos, negsuc, List, [], ◌∷◌,
  ◌++◌, length, take, drop, append_assoc, length-take,
}
use spectranet.Http.Data.{
  Arrival, arrives, hangs_up, invalid, quiet, htpoll, htrecv, received, left_over, poll_rounds,
}

-- The bytes that are still to come, whenever they arrive.
abbrev pub stream : List Arrival → List ℕ
stream [] = []
stream (arrives bs ∷ l) = bs ++ stream l
stream (hangs_up ∷ l) = stream l
stream (invalid ∷ l) = stream l
stream (quiet ∷ l) = stream l

abbrev pub head_bytes : Arrival → List ℕ
head_bytes (arrives bs) = bs
head_bytes _ = []

take-drop : (n : ℕ) (xs : List ℕ) → take n xs ++ drop n xs ≡ xs
take-drop zero xs = refl
take-drop (suc n) [] = refl
take-drop (suc n) (x ∷ xs) = ap (λ l. x ∷ l) (take-drop n xs)

stream-htpoll :
    (n : ℕ) (l : List Arrival) → head_bytes (htpoll n l).0 ++ stream (htpoll n l).1 ≡ stream l
unfolding htpoll
stream-htpoll zero l = refl
stream-htpoll (suc n) [] = refl
stream-htpoll (suc n) (arrives bs ∷ l) = refl
stream-htpoll (suc n) (hangs_up ∷ l) = refl
stream-htpoll (suc n) (invalid ∷ l) = refl
stream-htpoll (suc n) (quiet ∷ l) = stream-htpoll n l

stream-left_over : (bs : List ℕ) (l : List Arrival) → stream (left_over bs l) ≡ bs ++ stream l
stream-left_over [] l = refl
stream-left_over (b ∷ bs) l = refl

-- The length that goes with a result.
abbrev pub HasLength : ℤ → List ℕ → Type 0
HasLength (pos n) bs = length bs ≡ n
HasLength (negsuc n) bs = bs ≡ []

-- A result, the bytes and the rest: the bytes are the front of what was to come, no more than asked
-- for, and as many as the result says.
pub record IsFront (size : ℕ) (all : List ℕ) (r : ℤ × List ℕ × List Arrival) : Type 0 where
  pub whole : r.1 ++ stream r.2 ≡ all
  pub fits : length r.1 ≤ size
  pub count : HasLength r.0 r.1

received-IsFront :
    (size : ℕ) (p : Arrival × List Arrival)
    → IsFront size (head_bytes p.0 ++ stream p.1) (received size p)
unfolding received
received-IsFront size (quiet, l) = record { whole = refl; fits = omega arith; count = refl }
received-IsFront size (hangs_up, l) = record { whole = refl; fits = omega arith; count = refl }
received-IsFront size (invalid, l) = record { whole = refl; fits = omega arith; count = refl }
received-IsFront size (arrives bs, l) = record {
  whole =
      ap (λ s. take size bs ++ s) (stream-left_over (drop size bs) l)
      ∙ sym (append_assoc (take size bs) (drop size bs) (stream l))
      ∙ ap (λ s. s ++ stream l) (take-drop size bs);
  fits = omega (arith, length-take size bs);
  count = refl;
}

pub htrecv-IsFront : (size : ℕ) (l : List Arrival) → IsFront size (stream l) (htrecv size l)
unfolding htrecv
htrecv-IsFront size l =
    subst (λ s. IsFront size s (htrecv size l)) (stream-htpoll poll_rounds l)
      (received-IsFront size (htpoll poll_rounds l))

pub take-append_le :
    (n : ℕ) (xs ys : List ℕ) → length xs ≤ n → take n (xs ++ ys) ≡ xs ++ take (n - length xs) ys
take-append_le n [] ys h = ap (λ k. take k ys) (omega arith)
take-append_le zero (x ∷ xs) ys h = let bad : zero ≡ suc zero = omega arith in cc
take-append_le (suc n) (x ∷ xs) ys h =
    ap (λ l. x ∷ l) (take-append_le n xs ys (omega arith))
    ∙ ap (λ k. x ∷ (xs ++ take k ys)) (omega arith)

pub take-append_short : (n : ℕ) (xs ys : List ℕ) → n ≤ length xs → take n (xs ++ ys) ≡ take n xs
take-append_short zero xs ys h = refl
take-append_short (suc n) [] ys h = let bad : zero ≡ suc zero = omega arith in cc
take-append_short (suc n) (x ∷ xs) ys h = ap (λ l. x ∷ l) (take-append_short n xs ys (omega arith))

pub take_all : (xs : List ℕ) → take (length xs) xs ≡ xs
take_all [] = refl
take_all (x ∷ xs) = ap (λ l. x ∷ l) (take_all xs)

pub length-take_le : (n : ℕ) (xs : List ℕ) → n ≤ length xs → length (take n xs) ≡ n
length-take_le n xs h = let e = length-take n xs in omega arith

pub take-drop_more :
    (n d : ℕ) (xs ys : List ℕ)
    → n ≤ length xs
    → n ≤ d
    → take n xs ++ take (d - n) (drop n xs ++ ys) ≡ take d (xs ++ ys)
take-drop_more zero d xs ys h k = ap (λ m. take m (xs ++ ys)) (omega arith)
take-drop_more (suc n) d [] ys h k = let bad : zero ≡ suc zero = omega arith in cc
take-drop_more (suc n) zero (x ∷ xs) ys h k = let bad : zero ≡ suc zero = omega arith in cc
take-drop_more (suc n) (suc d) (x ∷ xs) ys h k =
    ap (λ m. x ∷ (take n xs ++ take m (drop n xs ++ ys))) (omega arith)
    ∙ ap (λ l. x ∷ l) (take-drop_more n d xs ys (omega arith) (omega arith))
