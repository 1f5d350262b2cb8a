-- ===== src/Ctf/Status.antt =====
-- The messages for the status line, server/bcastmsg.c (the English build), and the numbers on the
-- score board, the flag indicators and the spectators' score board of server/object.c.
use spectranet.Base.{
  ℕ, suc, ◌+◌, ◌-◌, ◌/◌, ℤ, pos, negsuc, ltb_ℤ, shr_ℤ, mod_ℤ, Bool, true, false, Option, none, some,
  List, [], ◌∷◌, ◌++◌, if◌then◌else◌, get_elem?, ltb, ◌==◌, take, codes, decimal, c_field,
}
use spectranet.Ctf.Limits.{max_clients, vp_x_pixels, vp_y_pixels}
use spectranet.Ctf.Msg
use spectranet.Ctf.Types.{ObjType, Object, Player, MapXy}
use spectranet.Ctf.World.{
  M, maybe, Act, pure, skip, ◌>>=◌, ◌>>◌, gets, when, deref, index, for_range, load_obj, get_player,
  the_player,
}
use spectranet.Ctf.Buffer.{post, broadcast_status_msg}
use spectranet.Ctf.Objects.{is_player_object}

-- `snprintf(bcast, MAXSTATUSMSG, ...)`, then the broadcast.
unfoldable pub say : List ℕ → Act
say text = broadcast_status_msg (take 41 text)

-- `getPlayer(obj->owner)`.
unfoldable pub owner_player : Object → M Player
owner_player obj = index obj.owner >>= the_player

abbrev pub other_colour : Bool → List ℕ
other_colour blue = if blue then codes "red" else codes "blue"

unfoldable pub is_blue : ℤ → Bool
is_blue (pos n) = n == 0
is_blue (negsuc n) = false

unfoldable pub broadcast_flag_drop : Player → Act
broadcast_flag_drop p =
    say (p.name ++ (codes " dropped the " ++ (other_colour (p.team == 0) ++ codes " flag")))

unfoldable pub broadcast_crash : Object → Act
broadcast_crash crasher = do
  p ← owner_player crasher
  if crasher.flags.has_flag
      then broadcast_flag_drop p
      else say (p.name ++ codes " crashed and died.")

unfoldable pub is_foton : ObjType → Bool
is_foton ObjType.foton = true
is_foton _ = false

-- `getPlayer` of the killer; NULL without an owner.
unfoldable pub killer_of : Object → M (Option Player)
unfolding get_player
killer_of o = if ltb_ℤ o.owner (pos 0) then pure none else (index o.owner >>= get_player)

unfoldable pub broadcast_death : Object → ℕ → Object → Act
broadcast_death killed killed_by_addr killed_by = do
  p ← owner_player killed
  if killed.flags.has_flag then broadcast_flag_drop p else do
    killer ← killer_of killed_by
    by_tank ← is_player_object killed_by_addr killed_by.owner
    if by_tank
        then (do k ← deref killer; say (p.name ++ (codes " was run over by " ++ k.name)))
        else maybe killer skip (λ k.
          when (is_foton killed_by.type) (say (p.name ++ (codes " was shot by " ++ k.name))))

unfoldable pub broadcast_flag_steal : Object → Act
broadcast_flag_steal stealer = do
  p ← owner_player stealer
  say (
      p.name
      ++ (codes " has taken the " ++ (other_colour (is_blue stealer.team) ++ codes " flag!")))

unfoldable pub broadcast_flag_capture : Object → Act
broadcast_flag_capture capturer = do
  p ← owner_player capturer
  say (
      p.name
      ++ (codes " has captured the " ++ (other_colour (is_blue capturer.team) ++ codes " flag!")))

unfoldable pub broadcast_flag_return : Object → Act
broadcast_flag_return returner = do
  p ← owner_player returner
  say (
      p.name
      ++ (codes " has returned the "
          ++ ((if is_blue returner.team then codes "blue" else codes "red") ++ codes " flag.")))

unfoldable pub broadcast_time_remaining : ℤ → Act
broadcast_time_remaining minutes =
    if ltb_ℤ (pos 1) minutes
    then say (decimal minutes ++ codes " minutes remaining...")
    else say (codes "Hurry! Time's running out!")

-- `NumberMsg`: the kind of number, and its digits in a field of five bytes.
unfoldable pub number_msg : ℕ → ℕ → ℤ → List ℕ
unfolding decimal c_field
number_msg junk numtype n = numtype ∷ c_field 5 junk (decimal n)

unfoldable pub post_number : ℕ → ℕ → ℤ → Act
post_number i numtype n = do
  junk ← gets (λ w. w.junk)
  post i Msg.scoreboard (number_msg junk numtype n)

unfoldable pub add_ammo_msg : Object → Act
add_ammo_msg obj = do i ← index obj.owner; post_number i 0 obj.ammo

unfoldable pub add_hitpoint_msg : Object → Act
add_hitpoint_msg obj = do i ← index obj.owner; post_number i 1 obj.hp

unfoldable pub add_player_score_msg : ℕ → Act
add_player_score_msg i = do p ← the_player i; post_number i 4 p.score

unfoldable pub add_lives_msg : ℕ → Act
add_lives_msg i = do p ← the_player i; post_number i 5 p.lives

-- `teamscore[team]`.
unfoldable pub team_score : ℕ → M ℤ
team_score team = gets (λ w. get_elem? w.teamscore team) >>= deref

-- `getTeamscore`: 0 for what is no team.
unfoldable pub get_teamscore : ℕ → M ℤ
get_teamscore team = if ltb team 2 then team_score team else pure (pos 0)

unfoldable pub add_team_score_msg : ℕ → ℕ → Act
add_team_score_msg i team = do s ← team_score team; post_number i (2 + team) s

-- A loop over the slots of `players`, which runs the body where there is a player.
unfoldable pub for_players : (ℕ → Player → Act) → Act
for_players body =
    for_range 0 max_clients (λ i. do slot ← get_player i; maybe slot skip (λ p. body i p))

unfoldable pub broadcast_team_score_msg : ℕ → Act
broadcast_team_score_msg team = do
  s ← team_score team
  for_players (λ i p. post_number i (2 + team) s)

unfoldable pub cancel_flag_indicators : ℕ → Act
cancel_flag_indicators team =
    for_players (λ i p. when (p.team == team) (post i Msg.flag_alert (0xFF ∷ [])))

-- Which way the flag lies, in screens: the row in the high digit and the column in the low one.
unfoldable pub flag_direction : MapXy → Object → ℕ
flag_direction loc tank =
    (if ltb_ℤ (pos flagscry) screeny
      then 0x00
      else if ltb_ℤ screeny (pos flagscry)
      then 0x20
      else 0x10)
    + (if ltb_ℤ (pos flagscrx) screenx
        then 0x00
        else if ltb_ℤ screenx (pos flagscrx)
        then 0x02
        else 0x01)
  where
    flagscrx : ℕ
    flagscrx = loc.mapx / vp_x_pixels

    flagscry : ℕ
    flagscry = loc.mapy / vp_y_pixels

    -- C's division, which rounds towards 0.
    quotient : ℤ → ℕ → ℤ
    quotient (pos n) d = pos (n / d)
    quotient (negsuc n) d = neg_of (suc n / d)
      where
        neg_of : ℕ → ℤ
        neg_of k = if k == 0 then pos 0 else negsuc (k - 1)

    screenx : ℤ
    screenx = quotient (shr_ℤ tank.x 4) vp_x_pixels

    screeny : ℤ
    screeny = quotient (shr_ℤ tank.y 4) vp_y_pixels

unfoldable pub update_flag_indicators : ℕ → Player → Act
update_flag_indicators i p = do
  loc ← gets (λ w. get_elem? w.flagloc p.team) >>= deref
  addr ← deref p.playerobj
  tank ← load_obj addr
  post i Msg.flag_alert (flag_direction loc tank ∷ [])

-- Those whose own flag is taken are told where it is.
unfoldable pub update_all_flag_indicators : Act
update_all_flag_indicators = for_players (λ i p. maybe p.playerobj skip (λ addr. do
  taken ← gets (λ w. get_elem? w.flag_taken p.team) >>= deref
  when taken (update_flag_indicators i p)))

unfoldable pub update_scoreboard : Object → Act
update_scoreboard obj = do
  add_ammo_msg obj
  add_hitpoint_msg obj
  i ← index obj.owner
  add_team_score_msg i 0
  add_team_score_msg i 1
  add_player_score_msg i
  add_lives_msg i

-- The bytes of `playerGoals` and `playerTeam`; the goals of an empty slot and all kills stay
-- uninitialised.
unfoldable pub goals_bytes : ℕ → List (Option Player) → List ℕ
goals_bytes junk [] = []
goals_bytes junk (none ∷ ps) = junk ∷ goals_bytes junk ps
goals_bytes junk (some p ∷ ps) = (if p.flags.spectator then junk else p.goals) ∷ goals_bytes junk ps

unfoldable pub team_bytes : List (Option Player) → List ℕ
team_bytes [] = []
team_bytes (none ∷ ps) = 255 ∷ team_bytes ps
team_bytes (some p ∷ ps) = (if p.flags.spectator then 255 else p.team) ∷ team_bytes ps

unfoldable pub kills_bytes : ℕ → List (Option Player) → List ℕ
kills_bytes junk [] = []
kills_bytes junk (p ∷ ps) = junk ∷ kills_bytes junk ps

-- `SpectatorScoreMsg`.
unfoldable pub spectator_score_msg : ℕ → ℤ → ℤ → List (Option Player) → List ℕ
unfolding goals_bytes team_bytes kills_bytes
spectator_score_msg junk s1 s2 ps =
    mod_ℤ s1 256 ∷ mod_ℤ s2 256 ∷ (goals_bytes junk ps ++ (kills_bytes junk ps ++ team_bytes ps))

unfoldable pub update_spectator_scoreboard : Act
update_spectator_scoreboard = do
  s1 ← team_score 0
  s2 ← team_score 1
  junk ← gets (λ w. w.junk)
  ps ← gets (λ w. w.players)
  for_players (λ i p.
      when p.flags.spectator (post i Msg.spec_scoreboard_msg (spectator_score_msg junk s1 s2 ps)))
