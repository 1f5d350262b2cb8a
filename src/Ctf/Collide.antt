-- ===== src/Ctf/Collide.antt =====
-- `collisionDetect` of server/object.c: objects against the map, and against one another.
pub mod Touching
use spectranet.Base.{
  ℕ, suc, ◌-◌, ℤ, pos, ◌+ℤ◌, ◌-ℤ◌, ltb_ℤ, leb_ℤ, ◌==ℤ◌, abs_ℤ, Bool, true, false, not, ◌&&◌, ◌||◌,
  Option, none, some, if◌then◌else◌, ltb,
}
use spectranet.Ctf.Limits.{max_objs}
use spectranet.Ctf.Types.{ObjType, Object, CollisionFunc}
use spectranet.Ctf.World.{
  maybe, Act, skip, ◌>>=◌, ◌>>◌, gets, when, deref, for_range, load_obj, store_obj, obj_at,
}
use spectranet.Ctf.Objects.{objprops, is_player_object}
use spectranet.Ctf.Physics.{shove, opposite}
use spectranet.Ctf.Status.{broadcast_crash, add_hitpoint_msg}
use spectranet.Ctf.Powerups.{powerup_touched}
use spectranet.Ctf.Flags.{is_flag, flag_collision, flag_captured, detect_touching_flagpoint}
use spectranet.Ctf.Combat.{deal_damage}
use spectranet.Ctf.MapTiles.{detect_map_collision}

-- An object that hits a wall, with the limit of the damage: it is destroyed, or it is hurt and
-- bounces back.
unfoldable pub hit_wall : ℤ → Object → Object
unfolding ◌+ℤ◌ ◌-ℤ◌ opposite
hit_wall limit obj =
    let dmg = obj.actual.velocity +ℤ pos 10 in
    let hp = obj.hp -ℤ (if ltb_ℤ limit dmg then limit else dmg) in
    if obj.armour ==ℤ pos 0
    then record obj {
      flags = record obj.flags { destroyed = true };
      actual = record obj.actual { velocity = pos 0 };
    }
    else if leb_ℤ hp (pos 0)
    then record obj {
      hp = hp;
      flags = record obj.flags { destroyed = true };
      actual = record obj.actual { velocity = pos 0 };
    }
    else record obj {
      hp = hp;
      commanded = record obj.commanded { velocity = pos 0 };
      push = record { dir = opposite obj.actual.dir; velocity = pos 16 };
      map_col_fudge = pos 3;
    }

-- The end of the wall part: the owner of a tank is told, and everyone of a crash.
unfoldable pub tell_wall : ℕ → Object → Act
tell_wall addr obj = do
  tank ← is_player_object addr obj.owner
  when tank (if obj.flags.destroyed then broadcast_crash obj else add_hitpoint_msg obj)

unfoldable pub wall_part : ℕ → Act
wall_part addr = do
  obj ← load_obj addr
  if not obj.flags.no_collide && (obj.map_col_fudge ==ℤ pos 0)
      then (do
        hit ← detect_map_collision obj
        limit ← gets (λ w. w.max_wall_collision_dmg)
        when hit (do store_obj addr (hit_wall limit obj); tell_wall addr (hit_wall limit obj)))
      else skip

unfoldable pub capture_part : ℕ → Act
capture_part addr = do
  obj ← load_obj addr
  when obj.flags.has_flag
      (do touching ← detect_touching_flagpoint obj; when touching (flag_captured addr))

unfoldable pub map_collision : ℕ → Act
map_collision i = do
  slot ← obj_at i
  maybe slot skip (λ addr. (do wall_part addr; capture_part addr))

-- Two squares of 256 sixteenths overlap; a flying object misses its owner.
unfoldable pub collides_with : Object → Object → Bool
unfolding ◌-ℤ◌
collides_with lhs rhs =
    if (lhs.owner ==ℤ rhs.owner) && (not (lhs.flying ==ℤ pos 0) || not (rhs.flying ==ℤ pos 0))
    then false
    else ltb (abs_ℤ (lhs.x -ℤ rhs.x)) 256 && ltb (abs_ℤ (lhs.y -ℤ rhs.y)) 256

unfoldable pub call_collision : Option CollisionFunc → ℕ → ℕ → Act
call_collision none a b = skip
call_collision (some CollisionFunc.powerup_touched) a b = powerup_touched a b

unfoldable pub shove_object : ℕ → ℕ → Act
shove_object addr other = do
  obj ← load_obj addr
  oth ← load_obj other
  env ← gets (λ w. w.env)
  both ← deref (shove env obj oth)
  store_obj other both.1
  store_obj addr both.0

unfoldable pub has_mass : ObjType → Bool
unfolding objprops
has_mass t = ltb_ℤ (pos 0) (objprops t).mass

-- Two objects that collide, neither of them a flag.
unfoldable pub crash : ℕ → Object → ℕ → Object → Act
crash addr1 o1 addr2 o2 = do
  call_collision o1.collision_func addr1 addr2
  call_collision o2.collision_func addr2 addr1
  when (has_mass o1.type && has_mass o2.type) (shove_object addr1 addr2)
  deal_damage addr1 addr2

unfoldable pub collide : ℕ → ℕ → Act
collide addr1 addr2 = do
  o1 ← load_obj addr1
  o2 ← load_obj addr2
  when (collides_with o1 o2) (
      if is_flag o1.type || is_flag o2.type
      then flag_collision addr1 addr2
      else crash addr1 o1 addr2 o2)

unfoldable pub collide_slots : Option ℕ → Option ℕ → Act
collide_slots none other = skip
collide_slots (some a) none = skip
collide_slots (some a) (some b) = collide a b

unfoldable pub pair : ℕ → ℕ → Act
pair i j = do a ← obj_at i; b ← obj_at j; collide_slots a b

-- The map first, then every pair of slots once. (A pair whose first slot is NULL is skipped, which
-- is what leaving the inner loop comes to, since nothing fills that slot meanwhile.)
unfoldable pub collision_detect : Act
collision_detect = do
  for_range 0 max_objs map_collision
  for_range 0 (max_objs - 1) (λ i. for_range (suc i) (max_objs - suc i) (pair i))
