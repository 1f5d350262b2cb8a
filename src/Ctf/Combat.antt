-- ===== src/Ctf/Combat.antt =====
-- Shooting, being shot and dying: `fireWeapon`, `dealDamage`, `awardDestructionPoints` and
-- `destroyPlayerObj` of server/object.c, and `processObjectControl` of server/control.c.
use spectranet.Base.{
  ℕ, pos, negsuc, ◌+ℤ◌, ◌-ℤ◌, ltb_ℤ, ◌==ℤ◌, Bool, true, false, not, ◌||◌, none, if◌then◌else◌, bit,
}
use spectranet.Ctf.Types.{ObjType, Object, zero_object, no_obj_flags}
use spectranet.Ctf.World.{
  M, Act, pure, skip, ◌>>=◌, ◌>>◌, when, index, alloc_obj, load_obj, store_obj, the_player,
  mod_player,
}
use spectranet.Ctf.Objects.{objprops, add_object, place_flag, is_player_object}
use spectranet.Ctf.Physics.{control_motion}
use spectranet.Ctf.Status.{add_ammo_msg, add_hitpoint_msg, add_lives_msg, broadcast_death}
use spectranet.Ctf.Endgame.{out_of_lives}
use spectranet.Ctf.Flags.{other_team}

-- The missile that `fireWeapon` makes.
unfoldable pub missile_object : Object → Object
unfolding objprops ◌+ℤ◌
missile_object firer = record zero_object {
  owner = firer.owner;
  type = ObjType.foton;
  commanded = record { dir = firer.commanded.dir; velocity = firer.actual.velocity +ℤ pos 100 };
  actual = record { dir = firer.commanded.dir; velocity = firer.actual.velocity +ℤ pos 100 };
  x = firer.x;
  y = firer.y;
  prevx = firer.x;
  prevy = firer.y;
  flags = record no_obj_flags { new_obj = true };
  hp = (objprops ObjType.foton).hitpoints;
  armour = (objprops ObjType.foton).armour;
  damage = (objprops ObjType.foton).damage;
  ttl = (objprops ObjType.foton).ttl;
  flying = pos 5;
}

-- The shooter after a shot.
unfoldable pub fired : Object → Object
unfolding objprops ◌-ℤ◌
fired firer = record firer {
  ammo = firer.ammo -ℤ pos 1;
  cooldown = (objprops firer.type).gun_cooldown;
}

unfoldable pub fire_weapon : ℕ → Act
fire_weapon addr = do
  firer ← load_obj addr
  if not (firer.cooldown ==ℤ pos 0) || (firer.ammo ==ℤ pos 0) then skip else (do
    missile ← alloc_obj (missile_object firer)
    add_object missile
    store_obj addr (fired firer)
    add_ammo_msg (fired firer))

unfoldable pub process_object_control : ℕ → Act
process_object_control addr = do
  obj ← load_obj addr
  if obj.flags.exploding then skip else (do
    store_obj addr (control_motion (objprops obj.type) obj)
    when (bit obj.ctrls 7) (fire_weapon addr))

-- The points go to the owner of `award_to`.
unfoldable pub award_destruction_points : Object → Object → Act
award_destruction_points award_to destroyed = do
  i ← index award_to.owner
  if destroyed.destruct_value ==ℤ pos 0
      then skip
      else mod_player i (λ p. record p {
        score = p.score +ℤ destroyed.destruct_value;
        flags = record p.flags { update_sb = true };
      })

-- An object without armour dies at once, any other when its hit points are gone.
unfoldable pub is_dead : Object → Bool
is_dead o = (o.armour ==ℤ pos 0) || ltb_ℤ o.hp (pos 1)

-- The end of `dealDamage` for one of the two objects.
unfoldable pub destroy_if_dead : ℕ → Bool → ℕ → Bool → Act
destroy_if_dead addr is_plyr other other_is_plyr = do
  o ← load_obj addr
  when (is_dead o) (do
    let killed = record o { flags = record o.flags { destroyed = true; exploding = true } }
    store_obj addr killed
    by ← load_obj other
    when is_plyr (broadcast_death killed other by)
    when other_is_plyr (award_destruction_points by killed))

-- The hit points that a collision with an object of the other's type takes.
unfoldable pub hurt : Object → Object → Object
unfolding objprops ◌-ℤ◌
hurt o other = record o { hp = o.hp -ℤ (objprops other.type).damage }

unfoldable pub deal_damage : ℕ → ℕ → Act
deal_damage addr1 addr2 = do
  o1 ← load_obj addr1
  o2 ← load_obj addr2
  store_obj addr1 (hurt o1 o2)
  store_obj addr2 (hurt o2 o1)
  o1isplyr ← is_player_object addr1 o1.owner
  o2isplyr ← is_player_object addr2 o2.owner
  when o1isplyr (add_hitpoint_msg (hurt o1 o2))
  when o2isplyr (add_hitpoint_msg (hurt o2 o1))
  destroy_if_dead addr1 o1isplyr addr2 o2isplyr
  destroy_if_dead addr2 o2isplyr addr1 o1isplyr

-- The explosion that a tank turns into, for 15 frames.
unfoldable pub exploded : Object → Object
exploded o = record o {
  flags = record no_obj_flags { no_collide = true; exploding = true };
  type = ObjType.xplode;
  ttl = pos 15;
  destruct_func = none;
}

-- The lives of a destroyed player; a limit below 0 is none. The result tells whether the player
-- is out of lives.
unfoldable pub lose_life : ℕ → M Bool
lose_life i = do
  p ← the_player i
  if ltb_ℤ (negsuc 0) p.lives
      then (do
        mod_player i (λ q. record q { lives = q.lives -ℤ pos 1 })
        if p.lives ==ℤ pos 1
            then (do out_of_lives i; pure true)
            else (do add_lives_msg p.clientid; pure false))
      else pure false

-- The destruction callback of a tank: a carried flag is dropped where the tank dies.
unfoldable pub destroy_player_obj : ℕ → Act
destroy_player_obj addr = do
  obj ← load_obj addr
  when obj.flags.has_flag (place_flag (other_team obj.team) obj.x obj.y)
  i ← index obj.owner
  out ← lose_life i
  store_obj addr (exploded (record obj { owner = if out then negsuc 0 else obj.owner }))
