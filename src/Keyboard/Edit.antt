-- ===== src/Keyboard/Edit.antt =====
-- The text that a line of input holds, in an array that is 0 from its end on, and its editing.
use spectranet.Base.{
  ℕ, zero, suc, ◌+◌, ◌-◌, ◌<◌, ◌≤◌, ◌≡◌, refl, ap, sym, ◌∙◌, arith, List, [], ◌∷◌, ◌++◌, length,
  length-append, replicate, set, ltb, if◌then◌else◌,
}

abbrev pub zeros : ℕ → List ℕ
zeros n = replicate n 0

-- The text without its last character.
unfoldable pub drop_last : List ℕ → List ℕ
drop_last [] = []
drop_last (x ∷ []) = []
drop_last (x ∷ (y ∷ xs)) = x ∷ drop_last (y ∷ xs)

-- A character at the end of a text of at most `size`.
unfoldable pub type_in : ℕ → ℕ → List ℕ → List ℕ
type_in size k t = if ltb (length t) size then t ++ (k ∷ []) else t

-- An array of `size` bytes holds a text, and `i` is its end.
pub record IsLine (size : ℕ) (t buf : List ℕ) (i : ℕ) : Type 0 where
  pub at_end : i ≡ length t
  pub fits : length t ≤ size
  pub holds : buf ≡ t ++ zeros (size - length t)

pub length-drop_last : (t : List ℕ) → length (drop_last t) ≡ length t - 1
unfolding drop_last
length-drop_last [] = refl
length-drop_last (x ∷ []) = refl
length-drop_last (x ∷ (y ∷ xs)) = omega (arith, length-drop_last (y ∷ xs))

pub drop_last_none : (t : List ℕ) → length t ≡ 0 → t ≡ drop_last t
unfolding drop_last
drop_last_none [] e = refl
drop_last_none (x ∷ t) e = let bad : 1 ≤ 0 = omega arith in elim bad [ ]

set-end : (t zs : List ℕ) (z k : ℕ) → set (t ++ (z ∷ zs)) (length t) k ≡ (t ++ (k ∷ [])) ++ zs
set-end [] zs z k = refl
set-end (x ∷ t) zs z k = ap (λ l. x ∷ l) (set-end t zs z k)

set-last :
    (x : ℕ) (t zs : List ℕ) → set ((x ∷ t) ++ zs) (length t) 0 ≡ drop_last (x ∷ t) ++ (0 ∷ zs)
unfolding drop_last
set-last x [] zs = refl
set-last x (y ∷ t) zs = ap (λ l. x ∷ l) (set-last y t zs)

replicate-left : (n m : ℕ) → n ≡ m + 1 → zeros n ≡ 0 ∷ zeros m
replicate-left n m e = let more : n ≡ suc m = omega arith in ap zeros more

pub empty-IsLine : (size : ℕ) → IsLine size [] (zeros size) 0
empty-IsLine size = record {
  at_end = refl;
  fits = omega arith;
  holds = ap (λ k. zeros k) (omega arith);
}

pub insert-IsLine :
    (size k : ℕ) (t buf : List ℕ) (i : ℕ)
    → IsLine size t buf i
    → i < size
    → IsLine size (t ++ (k ∷ [])) (set buf i k) (i + 1)
insert-IsLine size k t buf i l h =
    let at_end = l.at_end in
    let long = length-append t (k ∷ []) in
    let zs = zeros (size - length (t ++ (k ∷ []))) in
    let split = replicate-left (size - length t) (size - length (t ++ (k ∷ []))) (omega arith) in
    record {
      at_end = omega arith;
      fits = omega arith;
      holds =
          ap (λ b. set b i k) (l.holds ∙ ap (λ z. t ++ z) split)
          ∙ ap (λ n. set (t ++ (0 ∷ zs)) n k) at_end
          ∙ set-end t zs 0 k;
    }

pub delete-IsLine :
    (size : ℕ) (t buf : List ℕ) (i : ℕ)
    → IsLine size t buf i
    → 0 < i
    → IsLine size (drop_last t) (set buf (i - 1) 0) (i - 1)
delete-IsLine size [] buf i l h =
    let at_end = l.at_end in let bad : 1 ≤ 0 = omega arith in elim bad [ ]
delete-IsLine size (x ∷ t) buf i l h =
    let at_end = l.at_end in
    let fits = l.fits in
    let long = length-drop_last (x ∷ t) in
    let place : i - 1 ≡ length t = omega arith in
    let split =
      replicate-left (size - length (drop_last (x ∷ t))) (size - length (x ∷ t)) (omega arith) in
    record {
      at_end = omega arith;
      fits = omega arith;
      holds =
          ap (λ b. set b (i - 1) 0) l.holds
          ∙ ap (λ n. set ((x ∷ t) ++ zeros (size - length (x ∷ t))) n 0) place
          ∙ set-last x t (zeros (size - length (x ∷ t)))
          ∙ ap (λ z. drop_last (x ∷ t) ++ z) (sym split);
    }

set-zero : (n i : ℕ) → set (zeros n) i zero ≡ zeros n
set-zero zero i = refl
set-zero (suc n) zero = refl
set-zero (suc n) (suc i) = ap (λ l. 0 ∷ l) (set-zero n i)

set-close : (t : List ℕ) (n : ℕ) → set (t ++ zeros n) (length t) 0 ≡ t ++ zeros n
set-close [] n = set-zero n 0
set-close (x ∷ t) n = ap (λ l. x ∷ l) (set-close t n)

-- A 0 written at its end leaves the line as it is.
pub close-IsLine :
    (size : ℕ) (t buf : List ℕ) (i : ℕ) → IsLine size t buf i → IsLine size t (set buf i 0) i
close-IsLine size t buf i l = record {
  at_end = l.at_end;
  fits = l.fits;
  holds =
      ap (λ b. set b i 0) l.holds
      ∙ ap (λ n. set (t ++ zeros (size - length t)) n 0) l.at_end
      ∙ set-close t (size - length t);
}
