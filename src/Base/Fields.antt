-- ===== src/Base/Fields.antt =====
-- Texts in fields of a fixed size.
use Prim.Native.Nat.{ℕ, zero, suc, ◌-◌, ◌≤◌, ◌<◌}
use mathlib.Core.Path.{◌≡◌, refl, ap, ◌∙◌}
use mathlib.Core.Bool.{false}
use mathlib.Core.List.{List, [], ◌∷◌, ◌++◌}
use native.Mathlib.Omega.{arith}
use spectranet.Base.Tests.{◌==◌}
use spectranet.Base.Lists.{length, take, take_whole, replicate}
use spectranet.Base.Bytes.{c_field}
use spectranet.Base.Text.{c_text, Lacks}

c_text-append : (t r : List ℕ) → Lacks 0 t → c_text (t ++ (0 ∷ r)) ≡ t
unfolding c_text
c_text-append [] r h = refl
c_text-append (x ∷ t) r h =
    let (first, more) = h in
    let no : (x == 0) ≡ false = ground arith in rw no (ap (λ l. x ∷ l) (c_text-append t r more))

take-field :
    (n : ℕ) (t r : List ℕ) → length t < n → (s : List ℕ) × (take n (t ++ (0 ∷ r)) ≡ t ++ (0 ∷ s))
take-field zero t r h = let bad : 1 ≤ 0 = omega arith in elim bad [ ]
take-field (suc n) [] r h = (take n r, refl)
take-field (suc n) (x ∷ t) r h =
    let (s, e) = take-field n t r (omega arith) in (s, ap (λ l. x ∷ l) e)

-- A field that holds a text that fits it.
pub c_text-c_field :
    (n junk : ℕ) (t : List ℕ) → length t < n → Lacks 0 t → c_text (c_field n junk t) ≡ t
unfolding c_field
c_text-c_field n junk t h no_nul =
    let (s, e) = take-field n t (replicate n junk) h in
    ap (λ l. c_text (take n (l ++ (0 ∷ replicate n junk)))) (take_whole (n - 1) t (omega arith))
    ∙ ap c_text e
    ∙ c_text-append t s no_nul
