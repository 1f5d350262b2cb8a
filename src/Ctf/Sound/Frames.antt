-- ===== src/Ctf/Sound/Frames.antt =====
-- A frame keeps the state well formed.
use spectranet.Base.{ℕ, zero, suc, Bool, true, false, ◌||◌, Option, none, some, replicate, arith}
use spectranet.Ctf.World.{Act, World, modify}
use spectranet.Ctf.Types.{Object, DestructFunc}
use spectranet.Ctf.Keeps.{keeps_rules, then_do-After}
use spectranet.Ctf.Keeps.{Keeps}
use spectranet.Ctf.Sound.{IsSound}
use spectranet.Ctf.Frame
use spectranet.Ctf.Sound.Store.{
  obj_at-Keeps, load_obj-Keeps, store_obj-Keeps, mod_obj-Keeps, free_obj-Keeps, set_obj_at-Keeps,
  get_player-Keeps, the_player-Keeps, mod_player-Keeps,
}
use spectranet.Ctf.Sound.Messages.{broadcast_player_id_msg-Keeps}
use spectranet.Ctf.Sound.Boards.{
  for_players-Keeps, broadcast_time_remaining-Keeps, update_all_flag_indicators-Keeps,
  update_scoreboard-Keeps, update_spectator_scoreboard-Keeps,
}
use spectranet.Ctf.Sound.Making.{create_flags-Keeps, spawn_player-Keeps}
use spectranet.Ctf.Sound.Ends.{end_match-Keeps, broadcast_end_match-Keeps}
use spectranet.Ctf.Sound.Pickups.{
  update_power_spawns-Keeps, reset_powerup_spawn_points-Keeps, reset_powerup_spawn-Keeps,
}
use spectranet.Ctf.Sound.Fights.{
  process_object_control-Keeps, destroy_player_obj-Keeps, collision_detect-Keeps,
}
use spectranet.Ctf.Sound.Views.{make_sprite_updates-Keeps, send_map_msg-Keeps}
use spectranet.Ctf.Sound.Joining.{drop_client-Keeps, send_client_messages-Keeps}
use spectranet.Ctf.Sound.Store.{state_rules}

pub init_obj_list-Keeps : (first : Bool) → Keeps IsSound (Frame.init_obj_list first)
unfolding Frame.init_obj_list modify
init_obj_list-Keeps true = record { at = λ w h. ground arith }
init_obj_list-Keeps false = record { at = λ w h. ground arith }

pub carry_flag-Keeps : (obj : Object) → Keeps IsSound (Frame.carry_flag obj)
unfolding Frame.carry_flag
carry_flag-Keeps obj = search (state_rules, the_player-Keeps) depth 40

pub move_object-Keeps : (addr : ℕ) → Keeps IsSound (Frame.move_object addr)
unfolding Frame.move_object
move_object-Keeps addr =
    search (state_rules, load_obj-Keeps, store_obj-Keeps, carry_flag-Keeps) depth 40

pub apply_push-Keeps : (addr : ℕ) → Keeps IsSound (Frame.apply_push addr)
unfolding Frame.apply_push
apply_push-Keeps addr = search (state_rules, load_obj-Keeps, store_obj-Keeps) depth 40

pub update_object-Keeps : (addr : ℕ) → Keeps IsSound (Frame.update_object addr)
unfolding Frame.update_object
update_object-Keeps addr =
    search
      (
        state_rules, load_obj-Keeps, store_obj-Keeps, mod_obj-Keeps, process_object_control-Keeps,
        move_object-Keeps, apply_push-Keeps,
      )
      depth 40

pub call_destruct-Keeps :
    (a0 : Option DestructFunc) (a1 : ℕ) → Keeps IsSound (Frame.call_destruct a0 a1)
unfolding Frame.call_destruct
call_destruct-Keeps none addr = search state_rules depth 40
call_destruct-Keeps (some DestructFunc.destroy_player_obj) addr =
    search (state_rules, destroy_player_obj-Keeps) depth 40
call_destruct-Keeps (some DestructFunc.reset_powerup_spawn) addr =
    search (state_rules, reset_powerup_spawn-Keeps) depth 40

pub destruct_if_destroyed-Keeps : (addr : ℕ) → Keeps IsSound (Frame.destruct_if_destroyed addr)
unfolding Frame.destruct_if_destroyed
destruct_if_destroyed-Keeps addr =
    search (state_rules, load_obj-Keeps, call_destruct-Keeps) depth 40

for_objects-Keeps :
    (body : ℕ → ℕ → Act)
    → ((i addr : ℕ) → Keeps IsSound (body i addr))
    → Keeps IsSound (Frame.for_objects body)
unfolding Frame.for_objects
for_objects-Keeps body k = search (keeps_rules, obj_at-Keeps) depth 40

pub do_object_updates-Keeps : Keeps IsSound Frame.do_object_updates
unfolding Frame.do_object_updates
do_object_updates-Keeps =
    search
      (
        state_rules, update_power_spawns-Keeps, collision_detect-Keeps, for_objects-Keeps,
        update_object-Keeps, destruct_if_destroyed-Keeps,
      )
      depth 40

pub respawn-Keeps : (addr : ℕ) (obj : Object) → Keeps IsSound (Frame.respawn addr obj)
unfolding Frame.respawn
respawn-Keeps addr obj = search (state_rules, the_player-Keeps, spawn_player-Keeps) depth 40

pub clean_object-Keeps : (i : ℕ) (addr : ℕ) → Keeps IsSound (Frame.clean_object i addr)
unfolding Frame.clean_object
clean_object-Keeps i addr =
    search
      (
        state_rules, load_obj-Keeps, store_obj-Keeps, free_obj-Keeps, set_obj_at-Keeps,
        respawn-Keeps,
      )
      depth 40

pub clean_objects-Keeps : Keeps IsSound Frame.clean_objects
unfolding Frame.clean_objects
clean_objects-Keeps = search (state_rules, for_objects-Keeps, clean_object-Keeps) depth 40

clear_dead-IsSound :
    (f : World → ℕ → Option Object) (w : World)
    → IsSound w
    → IsSound (record w { dead_players = replicate 16 none; dead_player_idx = 0; objs = f w })
clear_dead-IsSound f w h = ground arith

pub reset_game-Keeps : Keeps IsSound Frame.reset_game
unfolding Frame.reset_game
reset_game-Keeps =
    search
      (
        keeps_rules, clear_dead-IsSound, for_players-Keeps, drop_client-Keeps, init_obj_list-Keeps,
        create_flags-Keeps, reset_powerup_spawn_points-Keeps,
      )
      depth 40

pub refresh_scores-Keeps : (a0 : Option ℕ) → Keeps IsSound (Frame.refresh_scores a0)
unfolding Frame.refresh_scores
refresh_scores-Keeps none = search state_rules depth 40
refresh_scores-Keeps (some addr) =
    search (state_rules, load_obj-Keeps, store_obj-Keeps, update_scoreboard-Keeps) depth 40

pub update_client-Keeps : (i : ℕ) → Keeps IsSound (Frame.update_client i)
unfolding Frame.update_client
update_client-Keeps i =
    search
      (
        state_rules, get_player-Keeps, the_player-Keeps, mod_player-Keeps,
        make_sprite_updates-Keeps, send_map_msg-Keeps, refresh_scores-Keeps,
      )
      depth 40

update_clients-Keeps :
    (i rounds : ℕ) (any : Bool) → Keeps IsSound (Frame.update_clients i rounds any)
unfolding Frame.update_clients
update_clients-Keeps i zero any = record { at = λ w h. h }
update_clients-Keeps i (suc rounds) any = record {
  at = λ w h.
      then_do-After (Frame.update_client i w) _ ((update_client-Keeps i).at w h)
        (λ scored. update_clients-Keeps (suc i) rounds (any || scored));
}

pub check_time-Keeps : Keeps IsSound Frame.check_time
unfolding Frame.check_time
check_time-Keeps =
    search (state_rules, broadcast_time_remaining-Keeps, end_match-Keeps, broadcast_end_match-Keeps)
      depth 40

pub check_players-Keeps : Keeps IsSound Frame.check_players
unfolding Frame.check_players
check_players-Keeps = search state_rules depth 40

pub drop_dead-Keeps : Keeps IsSound Frame.drop_dead
unfolding Frame.drop_dead
drop_dead-Keeps = search (state_rules, for_players-Keeps, drop_client-Keeps) depth 40

pub make_updates-Keeps : Keeps IsSound Frame.make_updates
unfolding Frame.make_updates
make_updates-Keeps =
    search
      (
        state_rules, broadcast_player_id_msg-Keeps, update_all_flag_indicators-Keeps,
        update_spectator_scoreboard-Keeps, send_client_messages-Keeps, do_object_updates-Keeps,
        clean_objects-Keeps, reset_game-Keeps, update_clients-Keeps, check_time-Keeps,
        check_players-Keeps, drop_dead-Keeps,
      )
      depth 40
