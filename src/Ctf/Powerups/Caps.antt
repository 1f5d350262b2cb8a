-- ===== src/Ctf/Powerups/Caps.antt =====
-- What a power-up does to the tank that touches it.
use spectranet.Base.{pos, ◌≤ℤ◌, ◌+ℤ◌, arith}
use spectranet.Ctf.Types.{ObjType, Object}
use spectranet.Ctf.Powerups.{recharge}

-- A power-up of any type leaves a tank with no less energy and ammunition than it had, and with at
-- most 100 and 20 of them, where it had no more than that before.
pub recharge_bounds :
    (t : ObjType) (o : Object)
    → o.hp ≤ℤ pos 100
    → o.ammo ≤ℤ pos 20
    → (o.hp ≤ℤ (recharge t o).hp)
      × ((recharge t o).hp ≤ℤ pos 100)
      × (o.ammo ≤ℤ (recharge t o).ammo)
      × ((recharge t o).ammo ≤ℤ pos 20)
unfolding recharge ◌+ℤ◌
recharge_bounds ObjType.player o h a = ground arith
recharge_bounds ObjType.foton o h a = ground arith
recharge_bounds ObjType.xplode o h a = ground arith
recharge_bounds ObjType.flag o h a = ground arith
recharge_bounds ObjType.fuel o h a = ground arith
recharge_bounds ObjType.ammo o h a = ground arith
