-- ===== src/Ctf/Client/Panel/Result.antt =====
-- The outcome that a player is shown.
use spectranet.Base.{
  ℕ, ◌==◌, ◌<◌, ◌≡◌, refl, ap, arith, ℤ, ltb_ℤ, ◌==ℤ◌, if◌then◌else◌, Option, some, List,
}
use mathlib.Core.Option
use spectranet.Ctf.Types.{Player}
use spectranet.Ctf.Endgame.{winner_of, won, game_end_msg}
use spectranet.Ctf.Client.Panel.{
  Outcome, defeat, victory, score_draw, no_lives, show_result_panel, game_over,
}

-- The captures of a player's own team, and those of the other.
abbrev pub own : Player → ℤ → ℤ → ℤ
own p blue red = if p.team == 0 then blue else red

abbrev pub other : Player → ℤ → ℤ → ℤ
other p blue red = if p.team == 0 then red else blue

abbrev pub outcome_of : Option (Outcome × List ℕ × List ℕ) → Option Outcome
outcome_of = Option.map (λ r. r.0)

shown_won :
    (p : Player) (blue red : ℤ)
    → p.team < 2
    → show_result_panel (won (winner_of blue red) p) ≡ (
        if blue ==ℤ red
        then score_draw
        else if ltb_ℤ (other p blue red) (own p blue red)
        then victory
        else defeat)
unfolding show_result_panel won winner_of
shown_won p blue red h = ground arith

-- When a match ends and the server tells a player of one of the two teams, the client shows a draw
-- if both teams have as many captures, and otherwise a victory exactly if the player's own team has
-- more; a player who ran out of lives is shown that, whatever the captures.
pub game_over-won :
    (p : Player) (blue red : ℤ) (junk : ℕ)
    → p.team < 2
    → (outcome_of (game_over (game_end_msg junk 0 (won (winner_of blue red) p) blue red))
        ≡ some (
            if blue ==ℤ red
            then score_draw
            else if ltb_ℤ (other p blue red) (own p blue red)
            then victory
            else defeat))
      × (outcome_of (game_over (game_end_msg junk 1 junk blue red)) ≡ some no_lives)
unfolding game_over game_end_msg
game_over-won p blue red junk h = (ap some (shown_won p blue red h), refl)
