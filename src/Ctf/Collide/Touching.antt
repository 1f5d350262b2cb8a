-- ===== src/Ctf/Collide/Touching.antt =====
-- When two objects touch.
use spectranet.Base.{ℤ, ◌-ℤ◌, abs_ℤ, ◌≡◌, arith, pos, ◌==ℤ◌, Bool, true, false, ◌||◌, not, refl}
use spectranet.Ctf.Types.{Object}
use spectranet.Ctf.Collide.{collides_with}

distance_comm : (a b : ℤ) → abs_ℤ (a -ℤ b) ≡ abs_ℤ (b -ℤ a)
unfolding ◌-ℤ◌
distance_comm a b = ground arith

owner_comm : (a b : ℤ) → (a ==ℤ b) ≡ (b ==ℤ a)
owner_comm a b = ground arith

or_comm : (a b : Bool) → (a || b) ≡ (b || a)
or_comm true true = refl
or_comm true false = refl
or_comm false true = refl
or_comm false false = refl

-- Touching does not depend on the order in which the two objects are taken.
pub collides_with_comm : (a b : Object) → collides_with a b ≡ collides_with b a
unfolding collides_with
collides_with_comm a b =
    rw
      (
        distance_comm a.x b.x,
        distance_comm a.y b.y,
        owner_comm a.owner b.owner,
        or_comm (not (a.flying ==ℤ pos 0)) (not (b.flying ==ℤ pos 0)),
      )
      refl
