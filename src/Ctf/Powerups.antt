-- ===== src/Ctf/Powerups.antt =====
-- The power-ups and their spawn points, server/powerups.c.
pub mod Caps
use spectranet.Base.{
  ℕ, ◌-◌, ◌%◌, ℤ, pos, negsuc, ◌+ℤ◌, ltb_ℤ, Bool, true, false, Option, none, some, [], ◌∷◌, ◌++◌,
  if◌then◌else◌, get_elem?, set, length, ltb, ◌==◌,
}
use spectranet.Ctf.Limits.{max_pwr_spawns, max_pwr_cooldown, min_pwr_cooldown}
use spectranet.Ctf.Types.{ObjType, Object, CollisionFunc, DestructFunc, PowerSpawn, MapXy}
use spectranet.Ctf.World.{
  M, Act, pure, skip, ◌>>=◌, ◌>>◌, gets, modify, when, deref, for_range, alloc_obj, load_obj,
  store_obj, rand,
}
use spectranet.Ctf.Objects.{new_object, add_object, fine}
use spectranet.Ctf.Status.{add_ammo_msg}

-- The cooldown time that a random number gives.
unfoldable pub cooldown_of : ℕ → ℕ
cooldown_of r =
    if ltb (r % max_pwr_cooldown) min_pwr_cooldown then min_pwr_cooldown else r % max_pwr_cooldown

unfoldable pub get_cooldown : M ℕ
get_cooldown = do r ← rand; pure (cooldown_of r)

-- The type that a tile letter stands for.
unfoldable pub spawn_type : ℕ → Option ObjType
spawn_type t =
    if t == b'f' then some ObjType.fuel else if t == b'g' then some ObjType.ammo else none

-- An unknown tile ends the program, as a fault does.
unfoldable pub add_powerup : MapXy → ℕ → Act
add_powerup location tiletype = do
  n ← gets (λ w. length w.powerups)
  if n == max_pwr_spawns then skip else (do
    c ← get_cooldown
    t ← deref (spawn_type tiletype)
    modify (λ w. record w {
      powerups =
          w.powerups
          ++ (record { x = fine location.mapx; y = fine location.mapy; cooldown = c; type = t }
              ∷ []);
    }))

-- The object that `spawnPowerup` makes for the spawn point with an index.
unfoldable pub powerup_object : ℕ → PowerSpawn → Object
unfolding new_object
powerup_object i sp = record (new_object sp.type (negsuc 0) sp.x sp.y) {
  team = negsuc 0;
  extras = some i;
  destruct_func = some DestructFunc.reset_powerup_spawn;
  collision_func = some CollisionFunc.powerup_touched;
  colour = 7;
}

unfoldable pub spawn_powerup : ℕ → PowerSpawn → Act
spawn_powerup i sp = do p ← alloc_obj (powerup_object i sp); add_object p

unfoldable pub set_cooldown : ℕ → ℕ → Act
set_cooldown i c = do
  sp ← gets (λ w. get_elem? w.powerups i) >>= deref
  modify (λ w. record w { powerups = set w.powerups i (record sp { cooldown = c }) })

-- One spawn point in one frame.
unfoldable pub update_spawn : ℕ → Act
update_spawn i = do
  sp ← gets (λ w. get_elem? w.powerups i) >>= deref
  when (sp.cooldown == 1) (spawn_powerup i sp)
  when (ltb 0 sp.cooldown) (set_cooldown i (sp.cooldown - 1))

unfoldable pub update_power_spawns : Act
update_power_spawns = do n ← gets (λ w. length w.powerups); for_range 0 n update_spawn

unfoldable pub reset_spawn : ℕ → Act
reset_spawn i = do c ← get_cooldown; set_cooldown i c

unfoldable pub reset_powerup_spawn_points : Act
reset_powerup_spawn_points = do n ← gets (λ w. length w.powerups); for_range 0 n reset_spawn

-- The destruction callback.
unfoldable pub reset_powerup_spawn : ℕ → Act
reset_powerup_spawn addr = do o ← load_obj addr; i ← deref o.extras; reset_spawn i

-- A sum that is cut at a maximum.
abbrev pub capped : ℤ → ℤ → ℤ → ℤ
capped top a n = if ltb_ℤ top (a +ℤ n) then top else a +ℤ n

-- What touching a power-up of a type does to a tank.
unfoldable pub recharge : ObjType → Object → Object
unfolding ◌+ℤ◌
recharge ObjType.fuel o = record o { hp = capped (pos 100) o.hp (pos 50) }
recharge ObjType.ammo o = record o { ammo = capped (pos 20) o.ammo (pos 10) }
recharge _ o = o

unfoldable pub touched_by_tank : ObjType → ℕ → Object → Act
touched_by_tank ObjType.fuel addr o = store_obj addr (recharge ObjType.fuel o)
touched_by_tank ObjType.ammo addr o = do
  store_obj addr (recharge ObjType.ammo o)
  add_ammo_msg (recharge ObjType.ammo o)
touched_by_tank _ addr o = skip

unfoldable pub is_tank : ObjType → Bool
is_tank ObjType.player = true
is_tank _ = false

-- The collision callback: only tanks get modified.
unfoldable pub powerup_touched : ℕ → ℕ → Act
powerup_touched powerup other = do
  pw ← load_obj powerup
  o ← load_obj other
  when (is_tank o.type) (touched_by_tank pw.type other o)
