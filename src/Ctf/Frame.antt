-- ===== src/Ctf/Frame.antt =====
-- One frame of the game, `makeUpdates` of server/object.c, and the reset of the game.
use spectranet.Base.{
  ℕ, zero, suc, ◌+◌, ◌-◌, ◌*◌, ◌/◌, ◌%◌, ℤ, pos, negsuc, ◌-ℤ◌, ltb_ℤ, ◌==ℤ◌, abs_ℤ, Bool, true,
  false, not, ◌&&◌, ◌||◌, Option, none, some, List, [], ◌∷◌, if◌then◌else◌, get_elem?, set,
  replicate, ◌==◌,
}
use spectranet.Ctf.Limits.{max_clients, max_objs, game_tick}
use spectranet.Ctf.Types.{Object, ObjFlags, MapXy, DestructFunc}
use spectranet.Ctf.World.{
  then_do, M, maybe, Act, pure, skip, ◌>>=◌, ◌>>◌, gets, modify, when, deref, index, for_range,
  load_obj, store_obj, mod_obj, free_obj, obj_at, set_obj_at, get_player, the_player, mod_player,
}
use spectranet.Ctf.Buffer.{broadcast_player_id_msg}
use spectranet.Ctf.Objects.{spawn_player, create_flags}
use spectranet.Ctf.Physics.{process_push, moved}
use spectranet.Ctf.Status.{
  for_players, update_scoreboard, broadcast_time_remaining, update_all_flag_indicators,
  update_spectator_scoreboard,
}
use spectranet.Ctf.Endgame.{broadcast_end_match, end_match}
use spectranet.Ctf.Powerups.{update_power_spawns, reset_powerup_spawn, reset_powerup_spawn_points}
use spectranet.Ctf.Combat.{process_object_control, destroy_player_obj}
use spectranet.Ctf.Collide.{collision_detect}
use spectranet.Ctf.View.{make_sprite_updates, send_map_msg}
use spectranet.Ctf.Clients.{drop_client, send_client_messages}

-- `initObjList`: with the first call the players go too.
unfoldable pub init_obj_list : Bool → Act
init_obj_list first = modify (λ w. record w {
  objlist = replicate max_objs none;
  players = if first then replicate max_clients none else w.players;
  dead_players = replicate max_clients none;
  teamscore = pos 0 ∷ pos 0 ∷ [];
  flagloc = origin ∷ origin ∷ [];
  flag_taken = false ∷ false ∷ [];
  frames = 0;
  time_remaining = w.time_limit;
  dead_player_idx = 0;
  player_count = pos 0;
  running = false;
  game_over = false;
})
  where
    origin : MapXy
    origin = record { mapx = 0; mapy = 0 }

-- A carried flag goes where its carrier goes: `obj->x >> 4`, in a `uint16_t`.
unfoldable pub carry_flag : Object → Act
carry_flag obj = when obj.flags.has_flag (do
  i ← index obj.owner
  p ← the_player i
  let team = (p.team + 1) % 2
  old ← gets (λ w. get_elem? w.flagloc team) >>= deref
  modify (λ w. record w {
    flagloc = set w.flagloc team (record { mapx = pixel obj.x; mapy = pixel obj.y });
  }))
  where
    pixel : ℤ → ℕ
    pixel (pos n) = n / 16 % 65536
    pixel (negsuc n) = 65535 - n / 16 % 65536

unfoldable pub move_object : ℕ → Act
move_object addr = do
  obj ← load_obj addr
  obj' ← deref (moved obj)
  store_obj addr obj'
  carry_flag obj'

unfoldable pub apply_push : ℕ → Act
apply_push addr = do
  obj ← load_obj addr
  env ← gets (λ w. w.env)
  obj' ← deref (process_push env obj)
  store_obj addr obj'

-- `if(n) n--`, `if(n > 0) n--`.
abbrev pub if_any : ℤ → ℤ
if_any n = if n ==ℤ pos 0 then n else n -ℤ pos 1

abbrev pub if_positive : ℤ → ℤ
if_positive n = if ltb_ℤ (pos 0) n then n -ℤ pos 1 else n

-- One object in one frame.
unfoldable pub update_object : ℕ → Act
update_object addr = do
  obj ← load_obj addr
  if obj.ttl ==ℤ pos 0
      then store_obj addr (record obj { flags = record obj.flags { destroyed = true } })
      else (do
        store_obj addr
            (record obj { map_col_fudge = if_any obj.map_col_fudge; flying = if_any obj.flying })
        process_object_control addr
        apply_push addr
        pushed ← load_obj addr
        when (not (pushed.actual.velocity ==ℤ pos 0)) (move_object addr)
        mod_obj addr (λ o. record o { cooldown = if_positive o.cooldown; ttl = if_positive o.ttl }))

-- A loop over the slots of `objlist`, which runs the body where there is an object.
unfoldable pub for_objects : (ℕ → ℕ → Act) → Act
for_objects body =
    for_range 0 max_objs (λ i. do slot ← obj_at i; maybe slot skip (λ addr. body i addr))

unfoldable pub call_destruct : Option DestructFunc → ℕ → Act
call_destruct none addr = skip
call_destruct (some DestructFunc.destroy_player_obj) addr = destroy_player_obj addr
call_destruct (some DestructFunc.reset_powerup_spawn) addr = reset_powerup_spawn addr

unfoldable pub destruct_if_destroyed : ℕ → Act
destruct_if_destroyed addr = do
  obj ← load_obj addr
  when obj.flags.destroyed (call_destruct obj.destruct_func addr)

unfoldable pub do_object_updates : Act
do_object_updates = do
  for_objects (λ i addr. update_object addr)
  update_power_spawns
  collision_detect
  for_objects (λ i addr. destruct_if_destroyed addr)

unfoldable pub is_address : Option ℕ → ℕ → Bool
is_address none p = false
is_address (some q) p = q == p

-- A tank that was destroyed is respawned for its owner.
unfoldable pub respawn : ℕ → Object → Act
respawn addr obj = if ltb_ℤ obj.owner (pos 0) then skip else do
  i ← index obj.owner
  p ← the_player i
  when (is_address p.playerobj addr && obj.flags.destroyed) (do loc ← spawn_player i; skip)

-- Only the flags of OBJRESET outlive the frame.
unfoldable pub kept_flags : ObjFlags → ObjFlags
kept_flags f = record f { has_moved = false; new_obj = false; destroyed = false; vanished = false }

unfoldable pub clean_object : ℕ → ℕ → Act
clean_object i addr = do
  obj ← load_obj addr
  if obj.flags.vanished || obj.flags.destroyed
      then (do respawn addr obj; set_obj_at i none; free_obj addr)
      else store_obj addr (record obj { flags = kept_flags obj.flags })

unfoldable pub clean_objects : Act
clean_objects = for_objects clean_object

unfoldable pub free_slots : List (Option ℕ) → (ℕ → Option Object) → ℕ → Option Object
free_slots [] h = h
free_slots (none ∷ l) h = free_slots l h
free_slots (some p ∷ l) h = free_slots l (λ q. if p == q then none else h q)

-- Remove all players and objects, then set up the flags and the scores again.
unfoldable pub reset_game : Act
reset_game = do
  for_players (λ i p. if p.flags.spectator then skip else drop_client i)
  modify (λ w. record w {
    dead_players = replicate max_clients none;
    dead_player_idx = 0;
    objs = free_slots w.objlist w.objs;
  })
  init_obj_list false
  create_flags
  reset_powerup_spawn_points

-- The score board of a tank that is marked for it; the result tells whether it was.
unfoldable pub refresh_scores : Option ℕ → M Bool
refresh_scores none = pure false
refresh_scores (some addr) = do
  tank ← load_obj addr
  if tank.flags.update_sb
      then (do
        update_scoreboard tank
        store_obj addr (record tank { flags = record tank.flags { update_sb = false } })
        pure true)
      else pure false

-- One client in the first loop of `makeUpdates`.
unfoldable pub update_client : ℕ → M Bool
update_client i = do
  slot ← get_player i
  maybe slot (pure false) (λ p.
      if not p.flags.running
      then pure false
      else if p.flags.new_viewport
      then (do
        send_map_msg i p.view
        mod_player i (λ q. record q { flags = record q.flags { new_viewport = false } })
        pure false)
      else (do
        make_sprite_updates i
        q ← the_player i
        scored ← refresh_scores q.playerobj
        mod_player i (λ r. record r { flags = record r.flags { new_viewport = false } })
        pure scored))

-- The clients from `i` on; the result tells whether a score board was refreshed.
unfoldable pub update_clients : ℕ → ℕ → Bool → M Bool
update_clients i zero any w = some (any, w)
update_clients i (suc rounds) any w =
    then_do (update_client i w) (λ scored. update_clients (suc i) rounds (any || scored))

-- `60 * FRAMESPERSEC`, where the macro is not in parentheses: 60 * 1000000 / 43000.
abbrev pub frames_per_minute : ℕ
frames_per_minute = 60 * 1000000 / game_tick

-- The time limit in frames, `seconds * FRAMESPERSEC`, rounded towards 0.
unfoldable pub limit_frames : ℤ → ℤ
limit_frames (pos s) = pos (s * 1000000 / game_tick)
limit_frames (negsuc s) = negsuc (suc s * 1000000 / game_tick - 1)

-- The time that is left: the match ends when it is up, and each full minute is announced.
unfoldable pub check_time : Act
check_time = do
  limit ← gets (λ w. w.time_limit)
  on ← gets (λ w. w.running)
  when (ltb_ℤ (negsuc 0) limit && on) (do
    modify (λ w. record w { time_remaining = w.time_remaining -ℤ pos 1 })
    left ← gets (λ w. w.time_remaining)
    if left ==ℤ pos 0
        then (do broadcast_end_match; end_match; modify (λ w. record w { game_over = true }))
        else when (abs_ℤ left % frames_per_minute == 0) (broadcast_time_remaining (minutes left)))
  where
    minutes : ℤ → ℤ
    minutes (pos n) = pos (n / frames_per_minute)
    minutes (negsuc n) = pos 0 -ℤ pos (suc n / frames_per_minute)

-- End the game if it's running and all the players went away. (`runOutOfPlayers` only writes to
-- the console and the score file.)
unfoldable pub check_players : Act
check_players = do
  on ← gets (λ w. w.running)
  n ← gets (λ w. w.player_count)
  when (on && (n ==ℤ pos 0)) (modify (λ w. record w { game_over = true }))

unfoldable pub drop_dead : Act
drop_dead = for_players (λ i p. when p.flags.dead (drop_client i))

-- `makeUpdates`.
unfoldable pub make_updates : Act
make_updates = do
  do_object_updates
  scored ← update_clients 0 max_clients false
  check_time
  update_all_flag_indicators
  send_client_messages
  clean_objects
  drop_dead
  modify (λ w. record w { frames = suc w.frames })
  frame ← gets (λ w. w.frames)
  when ((frame % (1000000 / game_tick) == 0) || scored)
      (do update_spectator_scoreboard; broadcast_player_id_msg)
  check_players
  over ← gets (λ w. w.game_over)
  when over reset_game
