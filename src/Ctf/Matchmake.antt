-- ===== src/Ctf/Matchmake.antt =====
-- Choosing teams before the game, server/matchmake.c.
pub mod Teams
use spectranet.Base.{
  ℕ, suc, ◌+◌, ◌%◌, ℤ, pos, ltb_ℤ, Bool, true, false, not, ◌&&◌, Option, none, some, List, [], ◌∷◌,
  ◌++◌, if◌then◌else◌, get_elem?, set, ltb, c_field,
}
use mathlib.Core.Option
use spectranet.Ctf.Limits.{max_name}
use spectranet.Ctf.Msg
use spectranet.Ctf.Types.{Player, no_player_flags}
use spectranet.Ctf.World.{World, Act, skip, fault, ◌>>=◌, ◌>>◌, gets, modify, when, mod_player}
use spectranet.Ctf.Buffer.{send_message_buf}
use spectranet.Ctf.Status.{for_players}

-- The loop of `orderTeams` over the slots, with `teampos`; `none` is a team outside the array.
unfoldable pub order_from : List ℕ → List (Option Player) → Option (List (Option Player))
order_from used [] = some []
order_from used (none ∷ ps) = Option.map (λ qs. none ∷ qs) (order_from used ps)
order_from used (some p ∷ ps) = elim (get_elem? used p.team) [
  | none ↦ none
  | some n ↦
      Option.map (λ qs. some (record p { playernum = n % 256 }) ∷ qs)
        (order_from (set used p.team (suc n)) ps)
]

unfoldable pub store_players : Option (List (Option Player)) → Act
store_players none = fault
store_players (some ps) = modify (λ w. record w { players = ps })

-- Put player numbers in order within the teams.
unfoldable pub order_teams : Act
order_teams = do ps ← gets (λ w. w.players); store_players (order_from (0 ∷ 0 ∷ 0 ∷ []) ps)

-- The loop of `isGameStartable`, with the players counted so far.
unfoldable pub startable_from : ℤ → ℕ → List (Option Player) → Bool
startable_from need count [] = if ltb_ℤ (pos count) need then false else true
startable_from need count (none ∷ ps) = startable_from need count ps
startable_from need count (some p ∷ ps) =
    let rest = startable_from need (suc count) ps in
    if not p.flags.ready
    then false
    else if ltb 1 p.team && not p.flags.spectator
    then false
    else rest

unfoldable pub is_game_startable : World → Bool
unfolding startable_from
is_game_startable w = startable_from w.min_players 0 w.players

-- `MatchmakeMsg` behind its message id.
unfoldable pub matchmake_msg : ℕ → Player → List ℕ
unfolding c_field
matchmake_msg junk p =
    Msg.matchmake_msg
    ∷ p.team
    ∷ p.playernum
    ∷ (if p.flags.ready then 1 else 0)
    ∷ c_field max_name junk p.name

-- The number of players, and their messages.
unfoldable pub count_players : List (Option Player) → ℕ
count_players [] = 0
count_players (none ∷ ps) = count_players ps
count_players (some p ∷ ps) = suc (count_players ps)

unfoldable pub player_msgs : ℕ → List (Option Player) → List ℕ
unfolding matchmake_msg
player_msgs junk [] = []
player_msgs junk (none ∷ ps) = player_msgs junk ps
player_msgs junk (some p ∷ ps) = matchmake_msg junk p ++ player_msgs junk ps

-- `makeMatchMakeMsgs`: clear the list, whether the game is startable, and all players.
unfoldable pub make_matchmake_msgs : World → List ℕ
unfolding count_players player_msgs is_game_startable
make_matchmake_msgs w =
    ((2 + count_players w.players) % 256)
    ∷ Msg.clr_player_list
    ∷ Msg.mm_startable
    ∷ (if is_game_startable w then 1 else 0)
    ∷ player_msgs w.junk w.players

-- A call of `sendMessageBuf` whose result is dropped.
unfoldable pub send_dropped : ℕ → List ℕ → Act
send_dropped i bs = do sent ← send_message_buf i bs; skip

unfoldable pub send_to_matchmakers : List ℕ → Act
send_to_matchmakers bs = for_players (λ i p. when p.flags.matchmaking (send_dropped i bs))

unfoldable pub update_all_matchmakers : Act
update_all_matchmakers = do bs ← gets make_matchmake_msgs; send_to_matchmakers bs

unfoldable pub update_matchmaker : ℕ → Act
update_matchmaker i = do bs ← gets make_matchmake_msgs; send_dropped i bs

-- What `tryToStopMatchmaking` does to one player of a startable game.
unfoldable pub leave_matchmaking : ℕ → Player → Act
leave_matchmaking i p =
    if p.flags.matchmaking
    then (do
      mod_player i (λ q. record q { flags = record no_player_flags { ready = true } })
      send_dropped i (1 ∷ Msg.mm_exit ∷ []))
    else when p.flags.spectator (send_dropped i (1 ∷ Msg.mm_exit ∷ []))

unfoldable pub try_to_stop_matchmaking : Act
try_to_stop_matchmaking = do
  startable ← gets is_game_startable
  when startable (for_players leave_matchmaking)
