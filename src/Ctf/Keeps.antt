-- ===== src/Ctf/Keeps.antt =====
-- Invariants of actions: a rule for each way to build one.
use spectranet.Base.{
  ℕ, zero, suc, ℤ, pos, negsuc, ◌≡◌, refl, Bool, true, false, Option, none, some, if◌then◌else◌,
}
use spectranet.Ctf.World.{
  World, M, Act, pure, skip, fault, then_do, ◌>>=◌, ◌>>◌, gets, modify, when, maybe, deref, index,
  for_range,
}

-- Where an action does not fault, `P` holds of what it leaves.
abbrev pub After : {A : Type 0} → (World → Type 0) → Option (A × World) → Type 0
After P none = Unit {0}
After P (some (a, w)) = P w

pub record Keeps {A : Type 0} (P : World → Type 0) (m : M A) : Type 0 where
  pub at : (w : World) → P w → After P (m w)

module _ {P : World → Type 0} where
  pub Keeps-pure : {A : Type 0} (a : A) → Keeps P (pure a)
  unfolding pure
  Keeps-pure a = record { at = λ w h. h }

  pub Keeps-skip : Keeps P skip
  unfolding skip
  Keeps-skip = record { at = λ w h. h }

  pub Keeps-fault : {A : Type 0} → Keeps P (fault {A = A})
  unfolding fault
  Keeps-fault = record { at = λ w h. tt }

  pub Keeps-gets : {A : Type 0} (f : World → A) → Keeps P (gets f)
  unfolding gets
  Keeps-gets f = record { at = λ w h. h }

  pub Keeps-modify : (f : World → World) → ((w : World) → P w → P (f w)) → Keeps P (modify f)
  unfolding modify
  Keeps-modify f k = record { at = k }

  pub then_do-After :
      {A B : Type 0} (r : Option (A × World)) (f : A → M B)
      → After P r
      → ((a : A) → Keeps P (f a))
      → After P (then_do r f)
  then_do-After none f h k = tt
  then_do-After (some (a, w)) f h k = (k a).at w h

  pub Keeps-bind :
      {A B : Type 0} (m : M A) (f : A → M B)
      → Keeps P m
      → ((a : A) → Keeps P (f a))
      → Keeps P (m >>= f)
  unfolding ◌>>=◌
  Keeps-bind m f km kf = record { at = λ w h. then_do-After (m w) f (km.at w h) kf }

  pub Keeps-seq : {B : Type 0} (m : Act) (k : M B) → Keeps P m → Keeps P k → Keeps P (m >> k)
  unfolding ◌>>◌
  Keeps-seq m k km kk = Keeps-bind m (λ _. k) km (λ _. kk)

  pub Keeps-if :
      {A : Type 0} (b : Bool) (m n : M A) → Keeps P m → Keeps P n → Keeps P (if b then m else n)
  Keeps-if true m n km kn = km
  Keeps-if false m n km kn = kn

  pub Keeps-when : (b : Bool) (m : Act) → Keeps P m → Keeps P (when b m)
  unfolding when
  Keeps-when true m km = km
  Keeps-when false m km = Keeps-skip

  pub Keeps-maybe :
      {A B : Type 0} (o : Option A) (m : M B) (f : A → M B)
      → Keeps P m
      → ((a : A) → Keeps P (f a))
      → Keeps P (maybe o m f)
  unfolding maybe
  Keeps-maybe none m f km kf = km
  Keeps-maybe (some a) m f km kf = kf a

  pub Keeps-deref : {A : Type 0} (o : Option A) → Keeps P (deref o)
  unfolding deref
  Keeps-deref none = Keeps-fault
  Keeps-deref (some a) = Keeps-pure a

  pub Keeps-index : (z : ℤ) → Keeps P (index z)
  unfolding index
  Keeps-index (pos n) = Keeps-pure n
  Keeps-index (negsuc n) = Keeps-fault

  pub Keeps-for_range :
      (i rounds : ℕ) (body : ℕ → Act)
      → ((j : ℕ) → Keeps P (body j))
      → Keeps P (for_range i rounds body)
  unfolding for_range
  Keeps-for_range i zero body k = record { at = λ w h. h }
  Keeps-for_range i (suc rounds) body k = record {
    at = λ w h.
        then_do-After (body i w) (λ _. for_range (suc i) rounds body) ((k i).at w h)
          (λ _. Keeps-for_range (suc i) rounds body k);
  }

-- `Q` of the value, too.
abbrev pub AfterWith : {A : Type 0} → (World → Type 0) → (A → Type 0) → Option (A × World) → Type 0
AfterWith P Q none = Unit {0}
AfterWith P Q (some (a, w)) = Q a × P w

pub record Yields {A : Type 0} (P : World → Type 0) (Q : A → Type 0) (m : M A) : Type 0 where
  pub at : (w : World) → P w → AfterWith P Q (m w)

abbrev IfSome : {A : Type 0} → (A → Type 0) → Option A → Type 0
IfSome Q none = Unit {0}
IfSome Q (some a) = Q a

known : {A : Type 0} (Q : A → Type 0) (o : Option A) → ((a : A) → o ≡ some a → Q a) → IfSome Q o
known Q none g = tt
known Q (some a) g = g a refl

deref_with :
    {A : Type 0} (P : World → Type 0) (Q : A → Type 0) (o : Option A) (w : World)
    → P w
    → IfSome Q o
    → AfterWith P Q (deref o w)
unfolding deref pure fault
deref_with P Q none w h k = tt
deref_with P Q (some a) w h k = (k, h)

module _ {P : World → Type 0} where
  pub Yields-gets :
      {A : Type 0} (Q : A → Type 0) (f : World → A)
      → ((w : World) → P w → Q (f w))
      → Yields P Q (gets f)
  unfolding gets
  Yields-gets Q f k = record { at = λ w h. (k w h, h) }

  -- A pointer read from the state, of which the invariant knows something.
  pub Yields-deref :
      {A : Type 0} (Q : A → Type 0) (f : World → Option A)
      → ((w : World) (a : A) → P w → f w ≡ some a → Q a)
      → Yields P Q (gets f >>= deref)
  unfolding gets ◌>>=◌
  Yields-deref Q f k = record {
    at = λ w h. deref_with P Q (f w) w h (known Q (f w) (λ a. k w a h));
  }

  then_do-With :
      {A B : Type 0} (Q : A → Type 0) (r : Option (A × World)) (f : A → M B)
      → AfterWith P Q r
      → ((a : A) → Q a → Keeps P (f a))
      → After P (then_do r f)
  then_do-With Q none f h k = tt
  then_do-With Q (some (a, w)) f h k = (k a h.0).at w h.1

  pub Keeps-bind_with :
      {A B : Type 0} (Q : A → Type 0) (m : M A) (f : A → M B)
      → Yields P Q m
      → ((a : A) → Q a → Keeps P (f a))
      → Keeps P (m >>= f)
  unfolding ◌>>=◌
  Keeps-bind_with Q m f km kf = record { at = λ w h. then_do-With Q (m w) f (km.at w h) kf }

  pub Yields-pure : {A : Type 0} (Q : A → Type 0) (a : A) → Q a → Yields P Q (pure a)
  unfolding pure
  Yields-pure Q a q = record { at = λ w h. (q, h) }

  pub Yields-if :
      {A : Type 0} (Q : A → Type 0) (b : Bool) (m n : M A)
      → Yields P Q m
      → Yields P Q n
      → Yields P Q (if b then m else n)
  Yields-if Q true m n ym yn = ym
  Yields-if Q false m n ym yn = yn

  then_do-Yields :
      {A B : Type 0} (Q : A → Type 0) (R : B → Type 0) (r : Option (A × World)) (f : A → M B)
      → AfterWith P Q r
      → ((a : A) → Q a → Yields P R (f a))
      → AfterWith P R (then_do r f)
  then_do-Yields Q R none f h k = tt
  then_do-Yields Q R (some (a, w)) f h k = (k a h.0).at w h.1

  pub Yields-bind :
      {A B : Type 0} (Q : A → Type 0) (R : B → Type 0) (m : M A) (f : A → M B)
      → Yields P Q m
      → ((a : A) → Q a → Yields P R (f a))
      → Yields P R (m >>= f)
  unfolding ◌>>=◌
  Yields-bind Q R m f ym yf = record { at = λ w h. then_do-Yields Q R (m w) f (ym.at w h) yf }

  pub Yields-weaken :
      {A : Type 0} (Q R : A → Type 0) (m : M A)
      → ((a : A) → Q a → R a)
      → Yields P Q m
      → Yields P R m
  Yields-weaken {A = A} Q R m k ym = record { at = λ w h. weaker (m w) (ym.at w h) }
    where
      weaker : (r : Option (A × World)) → AfterWith P Q r → AfterWith P R r
      weaker none h = tt
      weaker (some (a, w)) h = (k a h.0, h.1)

  -- What an action keeps may stand in front.
  Keeps-Yields : {A : Type 0} (m : M A) → Keeps P m → Yields P (λ a. Unit {0}) m
  Keeps-Yields m k = record { at = λ w h. kept (m w) (k.at w h) }
    where
      kept : {A : Type 0} (r : Option (A × World)) → After P r → AfterWith P (λ a. Unit {0}) r
      kept none h = tt
      kept (some (a, w)) h = (tt, h)

  pub Yields-seq :
      {B : Type 0} (R : B → Type 0) (m : Act) (k : M B)
      → Keeps P m
      → Yields P R k
      → Yields P R (m >> k)
  unfolding ◌>>◌
  Yields-seq R m k km yk = Yields-bind (λ a. Unit {0}) R m (λ _. k) (Keeps-Yields m km) (λ a q. yk)

  -- A branch may use its test.
  pub Keeps-if_with :
      {A : Type 0} (b : Bool) (m n : M A)
      → (b ≡ true → Keeps P m)
      → (b ≡ false → Keeps P n)
      → Keeps P (if b then m else n)
  Keeps-if_with true m n km kn = km refl
  Keeps-if_with false m n km kn = kn refl

pub ruleset keeps_rules = (
  Keeps-pure, Keeps-skip, Keeps-fault, Keeps-gets, Keeps-modify, Keeps-bind, Keeps-seq, Keeps-if,
  Keeps-when, Keeps-maybe, Keeps-deref, Keeps-index, Keeps-for_range,
)
