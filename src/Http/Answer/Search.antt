-- ===== src/Http/Answer/Search.antt =====
-- What `strstr` finds in a text that holds it.
use spectranet.Base.{
  ℕ, ◌≡◌, refl, ap, arith, Bool, true, false, Option, none, some, List, [], ◌∷◌, ◌++◌, strstr,
  starts_with, cons_first, c_text, Lacks, if◌then◌else◌, ◌==◌,
}

-- `strstr` finds something.
abbrev pub there : Option (List ℕ × List ℕ) → Bool
there none = false
there (some p) = true

cons_first-there :
    (c : ℕ) (o : Option (List ℕ × List ℕ)) → there o ≡ true → there (cons_first c o) ≡ true
cons_first-there c none h = cc
cons_first-there c (some (a, b)) h = refl

starts_with-append : (w b : List ℕ) → starts_with w (w ++ b) ≡ true
unfolding starts_with
starts_with-append [] b = refl
starts_with-append (c ∷ w) b =
    let same : (c == c) ≡ true = ground arith in rw (same) (starts_with-append w b)

if-there :
    (b : Bool) (o p : Option (List ℕ × List ℕ))
    → there o ≡ true
    → there p ≡ true
    → there (if b then o else p) ≡ true
if-there true o p h k = h
if-there false o p h k = k

there-here : (s w : List ℕ) → starts_with w s ≡ true → there (strstr s w) ≡ true
unfolding strstr
there-here [] w h = rw h refl
there-here (c ∷ s) w h = rw h refl

-- What stands in a text is found.
pub there-strstr : (a w b : List ℕ) → there (strstr (a ++ (w ++ b)) w) ≡ true
unfolding strstr
there-strstr [] w b = there-here (w ++ b) w (starts_with-append w b)
there-strstr (c ∷ a) w b =
    if-there (starts_with w (c ∷ (a ++ (w ++ b)))) (some ([], c ∷ (a ++ (w ++ b)))) _ refl
      (cons_first-there c (strstr (a ++ (w ++ b)) w) (there-strstr a w b))

pub c_text_lem : (s : List ℕ) → Lacks 0 s → c_text s ≡ s
unfolding c_text
c_text_lem [] l = refl
c_text_lem (c ∷ s) l =
    let other : (c == 0) ≡ false = ground (arith, l.0) in
    rw other (ap (λ t. c ∷ t) (c_text_lem s l.1))
