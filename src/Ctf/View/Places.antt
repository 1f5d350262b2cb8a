-- ===== src/Ctf/View/Places.antt =====
-- Where a sprite message puts an object on the client's screen.
use spectranet.Base.{
  ℕ, ◌+◌, ◌≤◌, ℤ, pos, negsuc, ◌-ℤ◌, leb_ℤ, shr_ℤ, mod_ℤ, ◌≡◌, refl, Bool, true, false, ◌&&◌, some,
  get_elem?, arith,
}
use spectranet.Ctf.Types.{Object, Viewport}
use spectranet.Ctf.View.{sprite_msg, in_view, obj_is_in_view}

and_parts : (a b : Bool) → (a && b) ≡ true → (a ≡ true) × (b ≡ true)
and_parts true b h = (refl, h)
and_parts false b h = cc

offset :
    (a : ℤ) (lo hi : ℕ)
    → leb_ℤ (pos lo) a ≡ true
    → leb_ℤ a (pos hi) ≡ true
    → hi ≤ lo + 255
    → pos (lo + mod_ℤ (a -ℤ pos lo) 256) ≡ a
unfolding ◌-ℤ◌
offset (pos n) lo hi low high wide = ground arith
offset (negsuc n) lo hi low high wide = ground arith

-- The object's bytes for its position, added to the corner of the viewport, give the pixel
-- position that the object has on the map: no byte wraps round for an object that is in view, in a
-- viewport of at most 256 pixels each way.
pub sprite_msg-position :
    (v : Viewport) (obj : Object) (objid : ℕ)
    → obj_is_in_view obj v ≡ true
    → v.bx ≤ v.tx + 255
    → v.by ≤ v.ty + 255
    → (px py : ℕ) × (get_elem? (sprite_msg v obj objid) 1 ≡ some px)
      × (get_elem? (sprite_msg v obj objid) 2 ≡ some py)
      × (pos (v.tx + px) ≡ shr_ℤ obj.x 4)
      × (pos (v.ty + py) ≡ shr_ℤ obj.y 4)
unfolding obj_is_in_view in_view sprite_msg
sprite_msg-position v obj objid seen wide high =
    let (x_in, y_in) = and_parts _ _ seen in
    let (left, right) = and_parts _ _ x_in in
    let (top, bottom) = and_parts _ _ y_in in
    (
      mod_ℤ (shr_ℤ obj.x 4 -ℤ pos v.tx) 256,
      mod_ℤ (shr_ℤ obj.y 4 -ℤ pos v.ty) 256,
      refl,
      refl,
      offset _ _ _ left right wide,
      offset _ _ _ top bottom high,
    )
