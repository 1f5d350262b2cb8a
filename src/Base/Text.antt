-- ===== src/Base/Text.antt =====
-- C's string functions on texts without their NUL.
use Prim.Native.Nat.{ℕ, zero, suc, ◌-◌}
use mathlib.Core.Path.{◌≡◌, refl, ap, sym, ◌∙◌}
use mathlib.Core.Bool.{Bool, true, false, ◌&&◌}
use Prim.{tt}
use mathlib.Core.Option.{Option, none, some}
use mathlib.Core.List.{List, [], ◌∷◌, ◌++◌}
use spectranet.Base.Tests.{ltb, ◌==◌, if◌then◌else◌, Bool-cases}
use mathlib.Core.Logic.{inl, inr}
use spectranet.Base.Int.{ℤ, pos, negsuc}
use spectranet.Base.Lists.{take, length}

-- The text up to the 0 that ends it.
unfoldable pub c_text : List ℕ → List ℕ
c_text [] = []
c_text (c ∷ cs) = let rest = c_text cs in if c == 0 then [] else c ∷ rest

-- A text starts with another.
unfoldable pub starts_with : List ℕ → List ℕ → Bool
starts_with [] s = true
starts_with (c ∷ cs) [] = false
starts_with (c ∷ cs) (d ∷ ds) = (c == d) && starts_with cs ds

abbrev pub cons_first : {A : Type 0} → A → Option (List A × List A) → Option (List A × List A)
cons_first c none = none
cons_first c (some (a, b)) = some (c ∷ a, b)

-- `strstr`: the text before the first place where the other begins, and the text from there on.
unfoldable pub strstr : List ℕ → List ℕ → Option (List ℕ × List ℕ)
unfolding starts_with
strstr [] w = if starts_with w [] then some ([], []) else none
strstr (c ∷ s) w =
    let rest = strstr s w in if starts_with w (c ∷ s) then some ([], c ∷ s) else cons_first c rest

-- `strncmp(a, b, n) == 0`.
unfoldable pub same_start : ℕ → List ℕ → List ℕ → Bool
same_start zero a b = true
same_start (suc n) [] [] = true
same_start (suc n) [] (d ∷ b) = false
same_start (suc n) (c ∷ a) [] = false
same_start (suc n) (c ∷ a) (d ∷ b) = (c == d) && same_start n a b

-- `strcmp(a, b) == 0`.
unfoldable pub same_text : List ℕ → List ℕ → Bool
same_text [] [] = true
same_text [] (d ∷ b) = false
same_text (c ∷ a) [] = false
same_text (c ∷ a) (d ∷ b) = (c == d) && same_text a b

-- `strlcpy`: what fits `size` bytes with the NUL; a negative size is a huge one.
unfoldable pub strlcpy : ℤ → List ℕ → List ℕ
strlcpy (pos n) s = take (n - 1) s
strlcpy (negsuc n) s = s

-- `strlcat` to a buffer of `size` bytes; a text that fills the buffer already stays as it is.
unfoldable pub strlcat : ℕ → List ℕ → List ℕ → List ℕ
strlcat size dst s = if ltb (length dst) size then dst ++ take (size - length dst - 1) s else dst

-- A byte that a text does not have.
abbrev pub Lacks : ℕ → List ℕ → Type 0
Lacks x [] = Unit {0}
Lacks x (c ∷ s) = ((x == c) ≡ false) × Lacks x s

unfoldable pub lacks : ℕ → List ℕ → Bool
lacks x [] = true
lacks x (c ∷ s) = let rest = lacks x s in if x == c then false else rest

-- A test for a text that is known.
pub lacks-Lacks : (x : ℕ) (s : List ℕ) → lacks x s ≡ true → Lacks x s
unfolding lacks
lacks-Lacks x [] e = tt
lacks-Lacks x (c ∷ s) e = elim (Bool-cases (x == c)) [
  | inl same ↦
      let bad : false ≡ true = sym (ap (λ b. if b then false else lacks x s) same) ∙ e in cc
  | inr other ↦ (other, lacks-Lacks x s (sym (ap (λ b. if b then false else lacks x s) other) ∙ e))
]

pub Lacks-append : (x : ℕ) (a b : List ℕ) → Lacks x a → Lacks x b → Lacks x (a ++ b)
Lacks-append x [] b ha hb = hb
Lacks-append x (c ∷ a) b ha hb = (ha.0, Lacks-append x a b ha.1 hb)

here :
    (s : List ℕ) (x : ℕ) (w : List ℕ)
    → starts_with (x ∷ w) s ≡ true
    → strstr s (x ∷ w) ≡ some ([], s)
unfolding strstr starts_with
here [] x w h = cc
here (c ∷ s) x w h = rw h refl

-- A text is found behind one that lacks its first byte.
pub strstr-append :
    (a s : List ℕ) (x : ℕ) (w : List ℕ)
    → Lacks x a
    → starts_with (x ∷ w) s ≡ true
    → strstr (a ++ s) (x ∷ w) ≡ some (a, s)
unfolding strstr starts_with
strstr-append [] s x w l h = here s x w h
strstr-append (c ∷ a) s x w l h = rw (l.0, strstr-append a s x w l.1 h) refl

-- A text is not found where its first byte is missing.
pub strstr-none : (s : List ℕ) (x : ℕ) (w : List ℕ) → Lacks x s → strstr s (x ∷ w) ≡ none
unfolding strstr starts_with
strstr-none [] x w l = refl
strstr-none (c ∷ s) x w l = rw (l.0, strstr-none s x w l.1) refl

pub take-append_length : {A : Type 0} (xs ys : List A) → take (length xs) (xs ++ ys) ≡ xs
take-append_length [] ys = refl
take-append_length (x ∷ xs) ys = ap (λ l. x ∷ l) (take-append_length xs ys)
