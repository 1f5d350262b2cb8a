-- ===== src/Ctf/Sound/Pickups.antt =====
-- Power-ups and flags keep the state well formed.
use spectranet.Base.{
  ℕ, zero, suc, ◌-◌, ◌≤◌, ◌<◌, ◌≡◌, subst, Bool, Option, none, some, List, [], ◌∷◌, get_elem?,
  arith,
}
use spectranet.Ctf.World.{pure, ◌>>=◌, rand}
use spectranet.Ctf.Types.{Object, Player, ObjType, PowerSpawn}
use spectranet.Ctf.Keeps.{
  keeps_rules, Yields, Yields-deref, Keeps-bind_with, Keeps-bind, Keeps-seq, Keeps-modify,
  Keeps-when,
}
use spectranet.Ctf.Sound.{All, IsSpawn}
use spectranet.Ctf.Sound.Store.{set_powerups-IsSound}
use spectranet.Ctf.Keeps.{Keeps}
use spectranet.Ctf.Sound.{IsSound}
use spectranet.Ctf.Powerups
use spectranet.Ctf.Flags
use spectranet.Ctf.Sound.Store.{
  load_obj-Keeps, store_obj-Keeps, alloc_obj-Keeps, get_player-Keeps, mod_player-Keeps,
}
use spectranet.Ctf.Sound.Making.{
  add_object-Keeps, get_flagpoint-Keeps, place_flag-Keeps, is_player_object-Keeps,
}
use spectranet.Ctf.Sound.Boards.{
  broadcast_flag_steal-Keeps, broadcast_flag_capture-Keeps, broadcast_flag_return-Keeps,
  add_ammo_msg-Keeps, team_score-Keeps, broadcast_team_score_msg-Keeps,
  cancel_flag_indicators-Keeps,
}
use spectranet.Ctf.Sound.Ends.{end_match-Keeps, broadcast_end_match-Keeps}
use spectranet.Ctf.Sound.Store.{state_rules}

-- A cooldown is between 240 and 719 frames, whatever the random number.
pub cooldown_bounds : (r : ℕ) → (240 ≤ Powerups.cooldown_of r) × (Powerups.cooldown_of r < 720)
unfolding Powerups.cooldown_of
cooldown_bounds r = ground arith

get_cooldown-Yields : Yields IsSound (λ c. c < 720) Powerups.get_cooldown
unfolding Powerups.get_cooldown rand ◌>>=◌ pure
get_cooldown-Yields = record { at = λ w h. ((cooldown_bounds (w.env.rand w.rands)).1, h) }

pub spawn_powerup-Keeps : (i : ℕ) (sp : PowerSpawn) → Keeps IsSound (Powerups.spawn_powerup i sp)
unfolding Powerups.spawn_powerup
spawn_powerup-Keeps i sp = search (state_rules, alloc_obj-Keeps, add_object-Keeps) depth 40

set_cooldown-Keeps : (i c : ℕ) → c < 720 → Keeps IsSound (Powerups.set_cooldown i c)
unfolding Powerups.set_cooldown
set_cooldown-Keeps i c ok =
    Keeps-bind _ _ (search keeps_rules) (λ sp. Keeps-modify _ (set_powerups-IsSound i _ ok))

All-lookup :
    (xs : List PowerSpawn) (i : ℕ) (s : PowerSpawn)
    → All IsSpawn xs
    → get_elem? xs i ≡ some s
    → IsSpawn s
All-lookup [] i s h e = cc
All-lookup (x ∷ xs) zero s h e = let same : x ≡ s = ground arith in subst IsSpawn same h.0
All-lookup (x ∷ xs) (suc i) s h e = All-lookup xs i s h.1 e

pub update_spawn-Keeps : (i : ℕ) → Keeps IsSound (Powerups.update_spawn i)
unfolding Powerups.update_spawn
update_spawn-Keeps i =
    Keeps-bind_with IsSpawn _ _
      (Yields-deref IsSpawn _ (λ w s h e. All-lookup w.powerups i s h.spawns e))
      λ sp ok.
        Keeps-seq _ _ (search (keeps_rules, spawn_powerup-Keeps))
          (Keeps-when _ _ (set_cooldown-Keeps i (sp.cooldown - 1) (omega arith)))

pub update_power_spawns-Keeps : Keeps IsSound Powerups.update_power_spawns
unfolding Powerups.update_power_spawns
update_power_spawns-Keeps = search (state_rules, update_spawn-Keeps) depth 40

pub reset_spawn-Keeps : (i : ℕ) → Keeps IsSound (Powerups.reset_spawn i)
unfolding Powerups.reset_spawn
reset_spawn-Keeps i =
    Keeps-bind_with (λ c. c < 720) _ _ get_cooldown-Yields (λ c ok. set_cooldown-Keeps i c ok)

pub reset_powerup_spawn_points-Keeps : Keeps IsSound Powerups.reset_powerup_spawn_points
unfolding Powerups.reset_powerup_spawn_points
reset_powerup_spawn_points-Keeps = search (state_rules, reset_spawn-Keeps) depth 40

pub reset_powerup_spawn-Keeps : (addr : ℕ) → Keeps IsSound (Powerups.reset_powerup_spawn addr)
unfolding Powerups.reset_powerup_spawn
reset_powerup_spawn-Keeps addr = search (state_rules, load_obj-Keeps, reset_spawn-Keeps) depth 40

pub touched_by_tank-Keeps :
    (a0 : ObjType) (a1 : ℕ) (a2 : Object) → Keeps IsSound (Powerups.touched_by_tank a0 a1 a2)
unfolding Powerups.touched_by_tank
touched_by_tank-Keeps ObjType.fuel addr o = search (state_rules, store_obj-Keeps) depth 40
touched_by_tank-Keeps ObjType.ammo addr o =
    search (state_rules, store_obj-Keeps, add_ammo_msg-Keeps) depth 40
touched_by_tank-Keeps _ addr o = search state_rules depth 40

pub powerup_touched-Keeps :
    (powerup : ℕ) (other : ℕ) → Keeps IsSound (Powerups.powerup_touched powerup other)
unfolding Powerups.powerup_touched
powerup_touched-Keeps powerup other =
    search (state_rules, load_obj-Keeps, touched_by_tank-Keeps) depth 40

pub set_flag_taken-Keeps : (team : ℕ) (b : Bool) → Keeps IsSound (Flags.set_flag_taken team b)
unfolding Flags.set_flag_taken
set_flag_taken-Keeps team b = search state_rules depth 40

pub detect_touching_flagpoint-Keeps :
    (obj : Object) → Keeps IsSound (Flags.detect_touching_flagpoint obj)
unfolding Flags.detect_touching_flagpoint
detect_touching_flagpoint-Keeps obj = search (state_rules, get_flagpoint-Keeps) depth 40

pub return_flag-Keeps :
    (flag_addr : ℕ) (flag : Object) (thing : Object)
    → Keeps IsSound (Flags.return_flag flag_addr flag thing)
unfolding Flags.return_flag
return_flag-Keeps flag_addr flag thing =
    search
      (
        state_rules, store_obj-Keeps, get_flagpoint-Keeps, broadcast_flag_return-Keeps,
        cancel_flag_indicators-Keeps, set_flag_taken-Keeps,
      )
      depth 40

pub steal_flag-Keeps :
    (flag_addr : ℕ) (flag : Object) (thing_addr : ℕ) (thing : Object)
    → Keeps IsSound (Flags.steal_flag flag_addr flag thing_addr thing)
unfolding Flags.steal_flag
steal_flag-Keeps flag_addr flag thing_addr thing =
    search (state_rules, store_obj-Keeps, broadcast_flag_steal-Keeps, set_flag_taken-Keeps) depth 40

pub touch_flag-Keeps :
    (flag_addr : ℕ) (flag : Object) (thing_addr : ℕ) (thing : Object)
    → Keeps IsSound (Flags.touch_flag flag_addr flag thing_addr thing)
unfolding Flags.touch_flag
touch_flag-Keeps flag_addr flag thing_addr thing =
    search (state_rules, is_player_object-Keeps, return_flag-Keeps, steal_flag-Keeps) depth 40

pub flag_collision-Keeps : (lhs : ℕ) (rhs : ℕ) → Keeps IsSound (Flags.flag_collision lhs rhs)
unfolding Flags.flag_collision
flag_collision-Keeps lhs rhs = search (state_rules, load_obj-Keeps, touch_flag-Keeps) depth 40

pub score_capture-Keeps : (team : ℕ) → Keeps IsSound (Flags.score_capture team)
unfolding Flags.score_capture
score_capture-Keeps team = search (state_rules, team_score-Keeps) depth 40

pub count_goal-Keeps : (a0 : ℕ) (a1 : Option Player) → Keeps IsSound (Flags.count_goal a0 a1)
unfolding Flags.count_goal
count_goal-Keeps i none = search state_rules depth 40
count_goal-Keeps i (some p) = search (state_rules, mod_player-Keeps) depth 40

pub flag_captured-Keeps : (addr : ℕ) → Keeps IsSound (Flags.flag_captured addr)
unfolding Flags.flag_captured
flag_captured-Keeps addr =
    search
      (
        state_rules, load_obj-Keeps, store_obj-Keeps, get_player-Keeps, get_flagpoint-Keeps,
        place_flag-Keeps, broadcast_flag_capture-Keeps, broadcast_team_score_msg-Keeps,
        cancel_flag_indicators-Keeps, end_match-Keeps, broadcast_end_match-Keeps,
        set_flag_taken-Keeps, score_capture-Keeps, count_goal-Keeps,
      )
      depth 40
