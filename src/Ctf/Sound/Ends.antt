-- ===== src/Ctf/Sound/Ends.antt =====
-- Matchmaking and the end of a match keep the state well formed.
use mathlib.Core.Option
use spectranet.Base.{
  ℕ, suc, ◌%◌, ◌≡◌, refl, ap, Option, none, some, List, [], ◌∷◌, length, set, get_elem?,
  Option-cases, inl, inr,
}
use spectranet.Ctf.World.{World, fault, modify, gets, ◌>>=◌}
use spectranet.Ctf.Types.{Player}
use spectranet.Ctf.Keeps.{After}
use spectranet.Ctf.Sound.{All, Slot, IsPlayer}
use spectranet.Ctf.Sound.Store.{replace_players-IsSound}
use spectranet.Ctf.Keeps.{Keeps}
use spectranet.Ctf.Sound.{IsSound}
use spectranet.Ctf.Matchmake
use spectranet.Ctf.Endgame
use spectranet.Ctf.Sound.Store.{the_player-Keeps, mod_player-Keeps}
use spectranet.Ctf.Sound.Messages.{post-Keeps, send_message_buf-Keeps}
use spectranet.Ctf.Sound.Boards.{for_players-Keeps, get_teamscore-Keeps}
use spectranet.Ctf.Sound.Store.{state_rules}

-- As many slots as before, with players in them.
abbrev SameSize : List (Option Player) → List (Option Player) → Type 0
SameSize ps qs = (length qs ≡ length ps) × All (Slot IsPlayer) qs

cons-SameSize :
    (x y : Option Player) (ps : List (Option Player)) (o : Option (List (Option Player)))
    → Slot IsPlayer y
    → Slot (SameSize ps) o
    → Slot (SameSize (x ∷ ps)) (Option.map (λ qs. y ∷ qs) o)
cons-SameSize x y ps none ok h = tt
cons-SameSize x y ps (some qs) ok h = (ap suc h.0, (ok, h.1))

order_from-SameSize :
    (used : List ℕ) (ps : List (Option Player))
    → All (Slot IsPlayer) ps
    → Slot (SameSize ps) (Matchmake.order_from used ps)
unfolding Matchmake.order_from
order_from-SameSize used [] h = (refl, tt)
order_from-SameSize used (none ∷ ps) h =
    cons-SameSize none none ps (Matchmake.order_from used ps) tt (order_from-SameSize used ps h.1)
order_from-SameSize used (some p ∷ ps) h = elim (Option-cases (get_elem? used p.team)) [
  | inl e ↦ rw (e, Matchmake.order_from) tt
  | inr (n, e) ↦
      rw (e, Matchmake.order_from)
        (cons-SameSize (some p) (some (record p { playernum = n % 256 })) ps
          (Matchmake.order_from (set used p.team (suc n)) ps) h.0
          (order_from-SameSize (set used p.team (suc n)) ps h.1))
]

store_players-After :
    (o : Option (List (Option Player))) (w : World)
    → IsSound w
    → Slot (SameSize w.players) o
    → After IsSound (Matchmake.store_players o w)
unfolding Matchmake.store_players fault modify
store_players-After none w h k = tt
store_players-After (some ps) w h k = replace_players-IsSound ps w k.0 k.1 h

pub order_teams-Keeps : Keeps IsSound Matchmake.order_teams
unfolding Matchmake.order_teams ◌>>=◌ gets
order_teams-Keeps = record {
  at = λ w h. store_players-After _ w h (order_from-SameSize (0 ∷ 0 ∷ 0 ∷ []) w.players h.teams);
}

pub send_dropped-Keeps : (i : ℕ) (bs : List ℕ) → Keeps IsSound (Matchmake.send_dropped i bs)
unfolding Matchmake.send_dropped
send_dropped-Keeps i bs = search (state_rules, send_message_buf-Keeps) depth 40

pub send_to_matchmakers-Keeps : (bs : List ℕ) → Keeps IsSound (Matchmake.send_to_matchmakers bs)
unfolding Matchmake.send_to_matchmakers
send_to_matchmakers-Keeps bs = search (state_rules, for_players-Keeps, send_dropped-Keeps) depth 40

pub update_all_matchmakers-Keeps : Keeps IsSound Matchmake.update_all_matchmakers
unfolding Matchmake.update_all_matchmakers
update_all_matchmakers-Keeps = search (state_rules, send_to_matchmakers-Keeps) depth 40

pub update_matchmaker-Keeps : (i : ℕ) → Keeps IsSound (Matchmake.update_matchmaker i)
unfolding Matchmake.update_matchmaker
update_matchmaker-Keeps i = search (state_rules, send_dropped-Keeps) depth 40

pub leave_matchmaking-Keeps : (i : ℕ) (p : Player) → Keeps IsSound (Matchmake.leave_matchmaking i p)
unfolding Matchmake.leave_matchmaking
leave_matchmaking-Keeps i p = search (state_rules, mod_player-Keeps, send_dropped-Keeps) depth 40

pub try_to_stop_matchmaking-Keeps : Keeps IsSound Matchmake.try_to_stop_matchmaking
unfolding Matchmake.try_to_stop_matchmaking
try_to_stop_matchmaking-Keeps =
    search (state_rules, for_players-Keeps, leave_matchmaking-Keeps) depth 40

pub end_match-Keeps : Keeps IsSound Endgame.end_match
unfolding Endgame.end_match
end_match-Keeps = search (state_rules, mod_player-Keeps, for_players-Keeps) depth 40

pub broadcast_end_match-Keeps : Keeps IsSound Endgame.broadcast_end_match
unfolding Endgame.broadcast_end_match
broadcast_end_match-Keeps =
    search (state_rules, post-Keeps, for_players-Keeps, get_teamscore-Keeps) depth 40

pub out_of_lives-Keeps : (i : ℕ) → Keeps IsSound (Endgame.out_of_lives i)
unfolding Endgame.out_of_lives
out_of_lives-Keeps i =
    search (state_rules, the_player-Keeps, mod_player-Keeps, post-Keeps, get_teamscore-Keeps) depth
      40
