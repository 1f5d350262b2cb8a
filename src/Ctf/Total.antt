-- ===== src/Ctf/Total.antt =====
-- Actions that never fault from a state with a property, and the rules that compose them.
pub mod Lobby
pub mod Stopping
pub mod Arrival
pub mod Choosing
pub mod Greeting
use spectranet.Base.{
  ℕ, zero, suc, ◌+◌, ◌≤◌, ◌<◌, ◌≡◌, refl, arith, Bool, true, false, Option, none, some,
  if◌then◌else◌,
}
use spectranet.Ctf.World.{
  World, M, Act, pure, skip, then_do, ◌>>=◌, ◌>>◌, gets, modify, when, maybe, deref, for_range,
}
use spectranet.Ctf.Keeps.{Keeps, After, Yields, AfterWith}

-- There is a value.
abbrev pub IsDone : {A : Type 0} → Option A → Type 0
IsDone none = 1 ≤ 0
IsDone (some a) = Unit {0}

pub record Total {A : Type 0} (P : World → Type 0) (m : M A) : Type 0 where
  pub at : (w : World) → P w → IsDone (m w)

pub done_of : {A : Type 0} (o : Option A) → IsDone o → (a : A) × (o ≡ some a)
done_of none h = elim h [ ]
done_of (some a) h = (a, refl)

deref-IsDone : {A : Type 0} (o : Option A) (w : World) → IsDone o → IsDone (deref o w)
unfolding deref pure
deref-IsDone none w h = elim h [ ]
deref-IsDone (some a) w h = tt

module _ {P : World → Type 0} where
  pub Total-pure : {A : Type 0} (a : A) → Total P (pure a)
  unfolding pure
  Total-pure a = record { at = λ w h. tt }

  pub Total-skip : Total P skip
  unfolding skip
  Total-skip = record { at = λ w h. tt }

  pub Total-gets : {A : Type 0} (f : World → A) → Total P (gets f)
  unfolding gets
  Total-gets f = record { at = λ w h. tt }

  pub Total-modify : (f : World → World) → Total P (modify f)
  unfolding modify
  Total-modify f = record { at = λ w h. tt }

  then_do-IsDone :
      {A B : Type 0} (r : Option (A × World)) (f : A → M B)
      → IsDone r
      → After P r
      → ((a : A) → Total P (f a))
      → IsDone (then_do r f)
  then_do-IsDone none f d h k = d
  then_do-IsDone (some (a, w)) f d h k = (k a).at w h

  pub Total-bind :
      {A B : Type 0} (m : M A) (f : A → M B)
      → Keeps P m
      → Total P m
      → ((a : A) → Total P (f a))
      → Total P (m >>= f)
  unfolding ◌>>=◌
  Total-bind m f km tm tf = record { at = λ w h. then_do-IsDone (m w) f (tm.at w h) (km.at w h) tf }

  pub Total-seq :
      {B : Type 0} (m : Act) (k : M B) → Keeps P m → Total P m → Total P k → Total P (m >> k)
  unfolding ◌>>◌
  Total-seq m k km tm tk = Total-bind m (λ _. k) km tm (λ _. tk)

  then_do-IsDone_with :
      {A B : Type 0} (Q : A → Type 0) (r : Option (A × World)) (f : A → M B)
      → IsDone r
      → AfterWith P Q r
      → ((a : A) → Q a → Total P (f a))
      → IsDone (then_do r f)
  then_do-IsDone_with Q none f d h k = d
  then_do-IsDone_with Q (some (a, w)) f d h k = (k a h.0).at w h.1

  pub Total-bind_with :
      {A B : Type 0} (Q : A → Type 0) (m : M A) (f : A → M B)
      → Yields P Q m
      → Total P m
      → ((a : A) → Q a → Total P (f a))
      → Total P (m >>= f)
  unfolding ◌>>=◌
  Total-bind_with Q m f ym tm tf = record {
    at = λ w h. then_do-IsDone_with Q (m w) f (tm.at w h) (ym.at w h) tf;
  }

  pub Total-if :
      {A : Type 0} (b : Bool) (m n : M A) → Total P m → Total P n → Total P (if b then m else n)
  Total-if true m n tm tn = tm
  Total-if false m n tm tn = tn

  pub Total-when : (b : Bool) (m : Act) → Total P m → Total P (when b m)
  unfolding when
  Total-when true m tm = tm
  Total-when false m tm = Total-skip

  pub Total-maybe :
      {A B : Type 0} (o : Option A) (m : M B) (f : A → M B)
      → Total P m
      → ((a : A) → Total P (f a))
      → Total P (maybe o m f)
  unfolding maybe
  Total-maybe none m f tm tf = tm
  Total-maybe (some a) m f tm tf = tf a

  -- A pointer or an array element that the property says is there.
  pub Total-read :
      {A : Type 0} (f : World → Option A)
      → ((w : World) → P w → IsDone (f w))
      → Total P (gets f >>= deref)
  unfolding gets ◌>>=◌
  Total-read f k = record { at = λ w h. deref-IsDone (f w) w (k w h) }

  pub Total-for_range :
      (i rounds : ℕ) (body : ℕ → Act)
      → ((j : ℕ) → Keeps P (body j))
      → ((j : ℕ) → j < i + rounds → Total P (body j))
      → Total P (for_range i rounds body)
  unfolding for_range
  Total-for_range i zero body k t = record { at = λ w h. tt }
  Total-for_range i (suc rounds) body k t = record {
    at = λ w h.
        then_do-IsDone (body i w) (λ _. for_range (suc i) rounds body) ((t i (omega arith)).at w h)
          ((k i).at w h) (λ _. Total-for_range (suc i) rounds body k (λ j lt. t j (omega arith)));
  }

pub ruleset total_rules = (
  Total-pure, Total-skip, Total-gets, Total-modify, Total-bind, Total-seq, Total-if, Total-when,
  Total-maybe,
)
