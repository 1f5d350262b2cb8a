-- ===== src/Ctf/Sound/Fights.antt =====
-- Shots, deaths and collisions keep the state well formed.
use spectranet.Base.{ℕ, Bool, Option, none, some}
use spectranet.Ctf.Types.{Object, CollisionFunc}
use spectranet.Ctf.Keeps.{Keeps}
use spectranet.Ctf.Sound.{IsSound}
use spectranet.Ctf.Combat
use spectranet.Ctf.MapTiles
use spectranet.Ctf.Collide
use spectranet.Ctf.Sound.Store.{
  load_obj-Keeps, store_obj-Keeps, alloc_obj-Keeps, obj_at-Keeps, the_player-Keeps,
  mod_player-Keeps,
}
use spectranet.Ctf.Sound.Making.{add_object-Keeps, place_flag-Keeps, is_player_object-Keeps}
use spectranet.Ctf.Sound.Boards.{
  broadcast_crash-Keeps, broadcast_death-Keeps, add_ammo_msg-Keeps, add_hitpoint_msg-Keeps,
  add_lives_msg-Keeps,
}
use spectranet.Ctf.Sound.Ends.{out_of_lives-Keeps}
use spectranet.Ctf.Sound.Pickups.{
  powerup_touched-Keeps, detect_touching_flagpoint-Keeps, flag_collision-Keeps, flag_captured-Keeps,
}
use spectranet.Ctf.Sound.Store.{state_rules}

pub fire_weapon-Keeps : (addr : ℕ) → Keeps IsSound (Combat.fire_weapon addr)
unfolding Combat.fire_weapon
fire_weapon-Keeps addr =
    search
      (
        state_rules, load_obj-Keeps, store_obj-Keeps, alloc_obj-Keeps, add_object-Keeps,
        add_ammo_msg-Keeps,
      )
      depth 40

pub process_object_control-Keeps : (addr : ℕ) → Keeps IsSound (Combat.process_object_control addr)
unfolding Combat.process_object_control
process_object_control-Keeps addr =
    search (state_rules, load_obj-Keeps, store_obj-Keeps, fire_weapon-Keeps) depth 40

pub award_destruction_points-Keeps :
    (award_to : Object) (destroyed : Object)
    → Keeps IsSound (Combat.award_destruction_points award_to destroyed)
unfolding Combat.award_destruction_points
award_destruction_points-Keeps award_to destroyed = search (state_rules, mod_player-Keeps) depth 40

pub destroy_if_dead-Keeps :
    (addr : ℕ) (is_plyr : Bool) (other : ℕ) (other_is_plyr : Bool)
    → Keeps IsSound (Combat.destroy_if_dead addr is_plyr other other_is_plyr)
unfolding Combat.destroy_if_dead
destroy_if_dead-Keeps addr is_plyr other other_is_plyr =
    search
      (
        state_rules, load_obj-Keeps, store_obj-Keeps, broadcast_death-Keeps,
        award_destruction_points-Keeps,
      )
      depth 40

pub deal_damage-Keeps : (addr1 : ℕ) (addr2 : ℕ) → Keeps IsSound (Combat.deal_damage addr1 addr2)
unfolding Combat.deal_damage
deal_damage-Keeps addr1 addr2 =
    search
      (
        state_rules, load_obj-Keeps, store_obj-Keeps, is_player_object-Keeps,
        add_hitpoint_msg-Keeps, destroy_if_dead-Keeps,
      )
      depth 40

pub lose_life-Keeps : (i : ℕ) → Keeps IsSound (Combat.lose_life i)
unfolding Combat.lose_life
lose_life-Keeps i =
    search
      (state_rules, the_player-Keeps, mod_player-Keeps, add_lives_msg-Keeps, out_of_lives-Keeps)
      depth 40

pub destroy_player_obj-Keeps : (addr : ℕ) → Keeps IsSound (Combat.destroy_player_obj addr)
unfolding Combat.destroy_player_obj
destroy_player_obj-Keeps addr =
    search (state_rules, load_obj-Keeps, store_obj-Keeps, place_flag-Keeps, lose_life-Keeps) depth
      40

pub detect_map_collision-Keeps : (obj : Object) → Keeps IsSound (MapTiles.detect_map_collision obj)
unfolding MapTiles.detect_map_collision
detect_map_collision-Keeps obj = search state_rules depth 40

pub tell_wall-Keeps : (addr : ℕ) (obj : Object) → Keeps IsSound (Collide.tell_wall addr obj)
unfolding Collide.tell_wall
tell_wall-Keeps addr obj =
    search (state_rules, is_player_object-Keeps, broadcast_crash-Keeps, add_hitpoint_msg-Keeps)
      depth 40

pub wall_part-Keeps : (addr : ℕ) → Keeps IsSound (Collide.wall_part addr)
unfolding Collide.wall_part
wall_part-Keeps addr =
    search
      (state_rules, load_obj-Keeps, store_obj-Keeps, detect_map_collision-Keeps, tell_wall-Keeps)
      depth 40

pub capture_part-Keeps : (addr : ℕ) → Keeps IsSound (Collide.capture_part addr)
unfolding Collide.capture_part
capture_part-Keeps addr =
    search (state_rules, load_obj-Keeps, detect_touching_flagpoint-Keeps, flag_captured-Keeps) depth
      40

pub map_collision-Keeps : (i : ℕ) → Keeps IsSound (Collide.map_collision i)
unfolding Collide.map_collision
map_collision-Keeps i =
    search (state_rules, obj_at-Keeps, wall_part-Keeps, capture_part-Keeps) depth 40

pub call_collision-Keeps :
    (a0 : Option CollisionFunc) (a1 : ℕ) (a2 : ℕ) → Keeps IsSound (Collide.call_collision a0 a1 a2)
unfolding Collide.call_collision
call_collision-Keeps none a b = search state_rules depth 40
call_collision-Keeps (some CollisionFunc.powerup_touched) a b =
    search (state_rules, powerup_touched-Keeps) depth 40

pub shove_object-Keeps : (addr : ℕ) (other : ℕ) → Keeps IsSound (Collide.shove_object addr other)
unfolding Collide.shove_object
shove_object-Keeps addr other = search (state_rules, load_obj-Keeps, store_obj-Keeps) depth 40

pub crash-Keeps :
    (addr1 : ℕ) (o1 : Object) (addr2 : ℕ) (o2 : Object)
    → Keeps IsSound (Collide.crash addr1 o1 addr2 o2)
unfolding Collide.crash
crash-Keeps addr1 o1 addr2 o2 =
    search (state_rules, deal_damage-Keeps, call_collision-Keeps, shove_object-Keeps) depth 40

pub collide-Keeps : (addr1 : ℕ) (addr2 : ℕ) → Keeps IsSound (Collide.collide addr1 addr2)
unfolding Collide.collide
collide-Keeps addr1 addr2 =
    search (state_rules, load_obj-Keeps, flag_collision-Keeps, crash-Keeps) depth 40

pub collide_slots-Keeps :
    (a0 : Option ℕ) (a1 : Option ℕ) → Keeps IsSound (Collide.collide_slots a0 a1)
unfolding Collide.collide_slots
collide_slots-Keeps none other = search state_rules depth 40
collide_slots-Keeps (some a) none = search state_rules depth 40
collide_slots-Keeps (some a) (some b) = search (state_rules, collide-Keeps) depth 40

pub pair-Keeps : (i : ℕ) (j : ℕ) → Keeps IsSound (Collide.pair i j)
unfolding Collide.pair
pair-Keeps i j = search (state_rules, obj_at-Keeps, collide_slots-Keeps) depth 40

pub collision_detect-Keeps : Keeps IsSound Collide.collision_detect
unfolding Collide.collision_detect
collision_detect-Keeps = search (state_rules, map_collision-Keeps, pair-Keeps) depth 40
