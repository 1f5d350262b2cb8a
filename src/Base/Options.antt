-- ===== src/Base/Options.antt =====
-- Chains of steps each of which can fail, and what holds of their result.
use mathlib.Core.Path.{◌≡◌, refl}
use Prim.Native.Nat.{ℕ, zero, suc, ◌<◌}
use mathlib.Core.Bool.{Bool, true, false}
use mathlib.Core.Option.{Option, none, some}
use mathlib.Core.Option
use mathlib.Core.List.{List, [], ◌∷◌}
use native.Mathlib.Omega.{arith}
use spectranet.Base.Tests.{if◌then◌else◌}
use spectranet.Base.Lists.{length, get_elem?}

infixl 55 ◌>>=◌
abbrev pub ◌>>=◌ {ℓ κ} : {A : Type ℓ} {B : Type κ} → Option A → (A → Option B) → Option B
none >>= f = none
some a >>= f = f a

-- There is a result, and `P` holds of it.
abbrev pub Gives {ℓ} : {A : Type ℓ} → (A → Type 0) → Option A → Type 0
Gives P none = ⊥
Gives P (some a) = P a

pub Gives-bind {ℓ κ} :
    {A : Type ℓ} {B : Type κ} (P : A → Type 0) (Q : B → Type 0) (o : Option A) (f : A → Option B)
    → Gives P o
    → ((a : A) → P a → Gives Q (f a))
    → Gives Q (o >>= f)
Gives-bind P Q none f h k = elim h [ ]
Gives-bind P Q (some a) f h k = k a h

pub Gives-if {ℓ} :
    {A : Type ℓ} (P : A → Type 0) (b : Bool) (x y : Option A)
    → (b ≡ true → Gives P x)
    → (b ≡ false → Gives P y)
    → Gives P (if b then x else y)
Gives-if P true x y h k = h refl
Gives-if P false x y h k = k refl

-- An item of a list at a place within it.
pub get_elem?-Gives {ℓ} :
    {A : Type ℓ} (xs : List A) (i : ℕ) → i < length xs → Gives (λ x. Unit) (get_elem? xs i)
get_elem?-Gives [] i h = elim h [ ]
get_elem?-Gives (x ∷ xs) zero h = tt
get_elem?-Gives (x ∷ xs) (suc i) h = get_elem?-Gives xs i (omega arith)

pub Gives-map {ℓ κ} :
    {A : Type ℓ} {B : Type κ} (P : B → Type 0) (f : A → B) (o : Option A)
    → Gives (λ a. P (f a)) o
    → Gives P (Option.map f o)
Gives-map P f none h = elim h [ ]
Gives-map P f (some a) h = h

pub Gives-at {ℓ κ} :
    {A : Type ℓ} {B : Type κ} (Q : B → Type 0) (o : Option A) (f : A → Option B) {a : A}
    → o ≡ some a
    → Gives Q (f a)
    → Gives Q (o >>= f)
Gives-at Q o f e h = rw e h

pub Gives-weaken {ℓ} :
    {A : Type ℓ} (P Q : A → Type 0) (o : Option A) → ((a : A) → P a → Q a) → Gives P o → Gives Q o
Gives-weaken P Q none f h = elim h [ ]
Gives-weaken P Q (some a) f h = f a h

-- `P` holds of the result, if there is one.
abbrev pub Whenever {ℓ} : {A : Type ℓ} → (A → Type 0) → Option A → Type 0
Whenever P none = Unit {0}
Whenever P (some a) = P a

pub Whenever-bind {ℓ κ} :
    {A : Type ℓ} {B : Type κ} (Q : B → Type 0) (o : Option A) (f : A → Option B)
    → ((a : A) → Whenever Q (f a))
    → Whenever Q (o >>= f)
Whenever-bind Q none f h = tt
Whenever-bind Q (some a) f h = h a

pub Whenever-after {ℓ κ} :
    {A : Type ℓ} {B : Type κ} (P : A → Type 0) (Q : B → Type 0) (o : Option A) (f : A → Option B)
    → Whenever P o
    → ((a : A) → P a → Whenever Q (f a))
    → Whenever Q (o >>= f)
Whenever-after P Q none f h k = tt
Whenever-after P Q (some a) f h k = k a h

pub Gives-Whenever {ℓ} :
    {A : Type ℓ} (P Q : A → Type 0) (o : Option A) → Gives P o → Whenever Q o → Gives Q o
Gives-Whenever P Q none h k = h
Gives-Whenever P Q (some a) h k = k
