-- ===== src/Ctf/Endgame.antt =====
-- The end of a match, server/endgame.c. What goes to the console and to the score file is left out.
use spectranet.Base.{
  ℕ, ℤ, ltb_ℤ, ◌==ℤ◌, mod_ℤ, true, List, [], ◌∷◌, ◌++◌, if◌then◌else◌, ◌==◌, decimal, c_field,
}
use spectranet.Ctf.Limits.{blue_team, red_team, no_team}
use spectranet.Ctf.Msg
use spectranet.Ctf.Types.{Player, no_player_flags}
use spectranet.Ctf.World.{Act, skip, ◌>>=◌, ◌>>◌, gets, the_player, mod_player}
use spectranet.Ctf.Buffer.{post}
use spectranet.Ctf.Status.{for_players, get_teamscore}

-- Every player who is no spectator is put into the score screen.
unfoldable pub end_match : Act
end_match = for_players (λ i p.
    if p.flags.spectator
    then skip
    else mod_player i (λ q. record q { flags = record no_player_flags { score_scrn = true } }))

-- The team with more captures.
unfoldable pub winner_of : ℤ → ℤ → ℕ
winner_of blue red =
    if blue ==ℤ red then no_team else if ltb_ℤ red blue then blue_team else red_team

-- `GameEnd`.
unfoldable pub game_end_msg : ℕ → ℕ → ℕ → ℤ → ℤ → List ℕ
unfolding c_field decimal
game_end_msg junk reason winner blue red =
    reason ∷ winner ∷ (c_field 4 junk (decimal blue) ++ c_field 4 junk (decimal red))

-- What a client is told: whether it has won, and not which team has.
unfoldable pub won : ℕ → Player → ℕ
won winner p = if winner == no_team then no_team else if p.team == winner then 1 else 0

unfoldable pub broadcast_end_match : Act
broadcast_end_match = do
  blue ← get_teamscore blue_team
  red ← get_teamscore red_team
  junk ← gets (λ w. w.junk)
  let winner = winner_of blue red
  for_players (λ i p.
      if p.flags.spectator
      then post i Msg.spec_game_end (0 ∷ winner ∷ mod_ℤ blue 256 ∷ mod_ℤ red 256 ∷ [])
      else post i Msg.endgame_score (game_end_msg junk 0 (won winner p) blue red))

-- The player's summary is queued, with an uninitialised `winner`, and the player is marked dead.
unfoldable pub out_of_lives : ℕ → Act
out_of_lives i = do
  p ← the_player i
  blue ← get_teamscore blue_team
  red ← get_teamscore red_team
  junk ← gets (λ w. w.junk)
  post p.clientid Msg.endgame_score (game_end_msg junk 1 junk blue red)
  mod_player i (λ q. record q { flags = record no_player_flags { score_scrn = true; dead = true } })
