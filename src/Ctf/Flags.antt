-- ===== src/Ctf/Flags.antt =====
-- Stealing, returning and capturing flags: server/object.c, with `detectTouchingFlagpoint` of
-- server/map.c.
use spectranet.Base.{
  ℕ, ◌+◌, ◌%◌, ℤ, pos, ◌+ℤ◌, ◌-ℤ◌, ltb_ℤ, ◌==ℤ◌, abs_ℤ, mod_ℤ, Bool, true, false, not, ◌&&◌, ◌||◌,
  Option, none, some, if◌then◌else◌, get_elem?, set, ltb,
}
use spectranet.Ctf.Types.{ObjType, Object, Player}
use spectranet.Ctf.World.{
  M, Act, pure, skip, ◌>>=◌, ◌>>◌, gets, modify, when, deref, index, load_obj, store_obj,
  get_player, mod_player,
}
use spectranet.Ctf.Objects.{get_flagpoint, place_flag, is_player_object, fine}
use spectranet.Ctf.Status.{
  cancel_flag_indicators, broadcast_flag_return, broadcast_flag_steal, broadcast_flag_capture,
  broadcast_team_score_msg, team_score,
}
use spectranet.Ctf.Endgame.{broadcast_end_match, end_match}

-- `(team + 1) & 1`
unfoldable pub other_team : ℤ → ℕ
unfolding ◌+ℤ◌
other_team t = mod_ℤ (t +ℤ pos 1) 2

unfoldable pub set_flag_taken : ℕ → Bool → Act
set_flag_taken team b = do
  old ← gets (λ w. get_elem? w.flag_taken team) >>= deref
  modify (λ w. record w { flag_taken = set w.flag_taken team b })

-- Within one sprite of the team's flag point.
unfoldable pub detect_touching_flagpoint : Object → M Bool
detect_touching_flagpoint obj = do
  team ← index obj.team
  fp ← get_flagpoint team
  pure (ltb (abs_ℤ (obj.x -ℤ fine fp.mapx)) 256 && ltb (abs_ℤ (obj.y -ℤ fine fp.mapy)) 256)

unfoldable pub is_flag : ObjType → Bool
is_flag ObjType.flag = true
is_flag _ = false

-- A player's tank touches the flag of its own team: the flag goes home, unless it is there.
unfoldable pub return_flag : ℕ → Object → Object → Act
return_flag flag_addr flag thing = do
  team ← index flag.team
  fp ← get_flagpoint team
  if (fine fp.mapx ==ℤ flag.x) && (fine fp.mapy ==ℤ flag.y) then skip else (do
    store_obj flag_addr
        (record flag { prevx = flag.x; prevy = flag.y; x = fine fp.mapx; y = fine fp.mapy })
    set_flag_taken team false
    cancel_flag_indicators team
    broadcast_flag_return thing)

-- A player's tank touches the flag of the other team: the flag object goes, and the tank has it.
unfoldable pub steal_flag : ℕ → Object → ℕ → Object → Act
steal_flag flag_addr flag thing_addr thing = do
  store_obj flag_addr (record flag { flags = record flag.flags { destroyed = true } })
  store_obj thing_addr (record thing { flags = record thing.flags { has_flag = true } })
  team ← index flag.team
  set_flag_taken team true
  broadcast_flag_steal (record thing { flags = record thing.flags { has_flag = true } })

unfoldable pub touch_flag : ℕ → Object → ℕ → Object → Act
touch_flag flag_addr flag thing_addr thing =
    if ltb_ℤ thing.owner (pos 0) || (thing.flags.no_collide || thing.flags.exploding)
    then skip
    else do
      tank ← is_player_object thing_addr thing.owner
      when tank (
          if thing.team ==ℤ flag.team
          then return_flag flag_addr flag thing
          else steal_flag flag_addr flag thing_addr thing)

unfoldable pub flag_collision : ℕ → ℕ → Act
flag_collision lhs rhs = do
  l ← load_obj lhs
  r ← load_obj rhs
  if is_flag l.type && is_flag r.type
      then skip
      else if is_flag l.type
      then touch_flag lhs l rhs r
      else touch_flag rhs r lhs l

-- `teamscore[team]++`; the result is the new score.
unfoldable pub score_capture : ℕ → M ℤ
score_capture team = do
  s ← team_score team
  modify (λ w. record w { teamscore = set w.teamscore team (s +ℤ pos 1) })
  pure (s +ℤ pos 1)

-- `if(p) p->goals++`, in a `uchar`.
unfoldable pub count_goal : ℕ → Option Player → Act
count_goal i none = skip
count_goal i (some p) = mod_player i (λ q. record q { goals = (q.goals + 1) % 256 })

unfoldable pub flag_captured : ℕ → Act
flag_captured addr = do
  capturer ← load_obj addr
  let other = other_team capturer.team
  fp ← get_flagpoint other
  place_flag other (fine fp.mapx) (fine fp.mapy)
  store_obj addr
      (record capturer { flags = record capturer.flags { has_flag = not capturer.flags.has_flag } })
  cancel_flag_indicators other
  set_flag_taken other false
  broadcast_flag_capture capturer
  team ← index capturer.team
  score ← score_capture team
  broadcast_team_score_msg team
  i ← index capturer.owner
  p ← get_player i
  count_goal i p
  goal ← gets (λ w. w.winning_score)
  when (ltb_ℤ (pos 0) goal && (score ==ℤ goal))
      (do broadcast_end_match; end_match; modify (λ w. record w { game_over = true }))
