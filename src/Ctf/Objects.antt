-- ===== src/Ctf/Objects.antt =====
-- The object list and the making of objects: server/object.c, with the lookups of spawn and flag
-- points of server/map.c.
pub mod Slots
use spectranet.Base.{
  ℕ, ◌+◌, ◌*◌, ℤ, pos, negsuc, ltb_ℤ, Bool, true, false, Option, none, some, List, [], ◌∷◌,
  if◌then◌else◌, get_elem?, ◌==◌,
}
use spectranet.Ctf.Types.{
  ObjType, ObjectProperties, Object, zero_object, no_obj_flags, DestructFunc, Player, MapXy,
  PlayerSpawn,
}
use spectranet.Ctf.World.{
  M, Act, pure, ◌>>=◌, ◌>>◌, gets, modify, deref, index, alloc_obj, the_player, mod_player,
}

abbrev pub immobile : ℤ → ℤ → ObjectProperties
immobile hp destroyed_for = record {
  init_velocity = pos 0;
  max_velocity = pos 0;
  max_accel = pos 0;
  max_brake = pos 0;
  turn_speed = pos 0;
  gun_cooldown = pos 0;
  mass = pos 0;
  hitpoints = hp;
  armour = pos 0;
  damage = pos 0;
  ttl = hp;
  pushdecay = pos 0;
  velqty = pos 0;
  destruct_value = destroyed_for;
}

-- The object property table.
unfoldable pub objprops : ObjType → ObjectProperties
objprops ObjType.player = record {
  init_velocity = pos 0;
  max_velocity = pos 40;
  max_accel = pos 4;
  max_brake = pos 4;
  turn_speed = pos 3;
  gun_cooldown = pos 18;
  mass = pos 100;
  hitpoints = pos 100;
  armour = pos 1;
  damage = pos 0;
  ttl = negsuc 0;
  pushdecay = pos 1;
  velqty = pos 1;
  destruct_value = pos 100;
}
objprops ObjType.foton = record {
  init_velocity = pos 100;
  max_velocity = pos 320;
  max_accel = pos 0;
  max_brake = pos 0;
  turn_speed = pos 0;
  gun_cooldown = pos 0;
  mass = pos 10;
  hitpoints = pos 1;
  armour = pos 0;
  damage = pos 45;
  ttl = pos 20;
  pushdecay = pos 3;
  velqty = pos 1;
  destruct_value = pos 0;
}
objprops ObjType.xplode = immobile (pos 0) (pos 0)
objprops ObjType.flag = immobile (negsuc 0) (pos 0)
objprops ObjType.fuel = immobile (negsuc 0) (pos 10)
objprops ObjType.ammo = immobile (negsuc 0) (pos 10)

-- `addObject` on the array: the first NULL slot takes the address; a full array stays as it is.
unfoldable pub put_first_free : ℕ → List (Option ℕ) → List (Option ℕ)
put_first_free p [] = []
put_first_free p (none ∷ l) = some p ∷ l
put_first_free p (some q ∷ l) = some q ∷ put_first_free p l

unfoldable pub add_object : ℕ → Act
add_object p = modify (λ w. record w { objlist = put_first_free p w.objlist })

-- `deleteObject` on the array: the first slot with the address becomes NULL.
unfoldable pub clear_first : ℕ → List (Option ℕ) → List (Option ℕ)
clear_first p [] = []
clear_first p (none ∷ l) = none ∷ clear_first p l
clear_first p (some q ∷ l) = if q == p then none ∷ l else some q ∷ clear_first p l

unfoldable pub delete_object : ℕ → Act
delete_object p = modify (λ w. record w { objlist = clear_first p w.objlist })

-- The object that `newObject` makes.
unfoldable pub new_object : ObjType → ℤ → ℤ → ℤ → Object
unfolding objprops
new_object t owner x y = record zero_object {
  commanded = record { dir = pos 0; velocity = (objprops t).init_velocity };
  owner = owner;
  type = t;
  x = x;
  y = y;
  damage = (objprops t).damage;
  armour = (objprops t).armour;
  ttl = (objprops t).ttl;
  flags = record no_obj_flags { new_obj = true };
  destruct_value = (objprops t).destruct_value;
}

-- `flags[team]`.
unfoldable pub get_flagpoint : ℕ → M MapXy
get_flagpoint team = gets (λ w. get_elem? w.flagpoints team) >>= deref

-- The flag object that `placeFlag` makes: BLUE|BRIGHT for team 0, RED|BRIGHT for the other.
unfoldable pub flag_object : ℕ → ℤ → ℤ → Object
unfolding new_object
flag_object team x y = record (new_object ObjType.flag (negsuc 0) x y) {
  team = pos team;
  colour = if team == 0 then 0x41 else 0x42;
}

unfoldable pub place_flag : ℕ → ℤ → ℤ → Act
place_flag team x y = do p ← alloc_obj (flag_object team x y); add_object p

-- The position of a map point in sixteenths of a pixel.
abbrev pub fine : ℕ → ℤ
fine n = pos (n * 16)

unfoldable pub create_flags : Act
create_flags = do
  blueloc ← get_flagpoint 0
  redloc ← get_flagpoint 1
  place_flag 0 (fine blueloc.mapx) (fine blueloc.mapy)
  place_flag 1 (fine redloc.mapx) (fine redloc.mapy)

-- The index of a player's spawn point.
unfoldable pub spawn_index : Player → ℕ
spawn_index p = p.team * 2 + p.playernum

unfoldable pub get_spawnpoint : Player → M PlayerSpawn
get_spawnpoint p = do
  loc ← gets (λ w. get_elem? w.spawnpoints (spawn_index p)) >>= deref
  dir ← gets (λ w. get_elem? w.spawndirs (spawn_index p)) >>= deref
  pure (record { loc = loc; dir = dir })

-- The tank that `spawnPlayer` makes; its colour is CYAN or RED|BRIGHT.
unfoldable pub tank_object : ℕ → Player → PlayerSpawn → Object
unfolding objprops
tank_object clientid p spawn = record zero_object {
  x = fine spawn.loc.mapx;
  y = fine spawn.loc.mapy;
  commanded = record { dir = pos spawn.dir; velocity = pos 0 };
  actual = record { dir = pos spawn.dir; velocity = pos 0 };
  prevx = fine spawn.loc.mapx;
  prevy = fine spawn.loc.mapy;
  ttl = negsuc 0;
  ammo = pos 10;
  owner = pos clientid;
  destruct_func = some DestructFunc.destroy_player_obj;
  type = ObjType.player;
  armour = (objprops ObjType.player).armour;
  hp = (objprops ObjType.player).hitpoints;
  damage = (objprops ObjType.player).damage;
  team = pos p.team;
  flags = record no_obj_flags { update_sb = true };
  colour = if p.team == 0 then 0x05 else 0x42;
}

-- The player is the one in slot `clientid`, as in both calls.
unfoldable pub spawn_player : ℕ → M MapXy
spawn_player clientid = do
  p ← the_player clientid
  spawn ← get_spawnpoint p
  po ← alloc_obj (tank_object clientid p spawn)
  add_object po
  mod_player clientid (λ q. record q { playerobj = some po; vpcframes = pos 0 })
  pure spawn.loc

unfoldable pub same_address : Option ℕ → ℕ → Bool
same_address none p = false
same_address (some q) p = q == p

-- Whether the object at the address, whose owner is given, is the tank of its owner.
unfoldable pub is_player_object : ℕ → ℤ → M Bool
is_player_object p owner =
    if ltb_ℤ owner (pos 0)
    then pure false
    else do i ← index owner; player ← the_player i; pure (same_address player.playerobj p)
