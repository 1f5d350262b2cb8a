-- ===== src/Ctf/Total/Stopping.antt =====
-- The request to end the matchmaking, which makes each player of a startable match leave the lobby.
use spectranet.Base.{ℕ, ◌<◌, ◌≡◌, refl, arith, Option, none, some, List, get_elem?}
use spectranet.Ctf.Types.{Player}
use spectranet.Ctf.World.{World, get_player, gets, deref, pure, maybe, skip, ◌>>=◌}
use spectranet.Ctf.Status.{for_players}
use spectranet.Ctf.Matchmake
use spectranet.Ctf.Keeps.{Keeps, Keeps-gets, keeps_rules}
use spectranet.Ctf.Sound.{IsSound}
use spectranet.Ctf.Sound.Store.{get_player-Keeps}
use spectranet.Ctf.Sound.Ends.{leave_matchmaking-Keeps, try_to_stop_matchmaking-Keeps}
use spectranet.Ctf.Total.{
  Total, IsDone, Total-for_range, Total-if, Total-seq, Total-when, Total-bind, Total-gets,
}
use spectranet.Ctf.Total.Greeting.{get_elem?-IsDone, send_dropped-Total}
use spectranet.Ctf.Total.Lobby.{
  InLobby, Seated, weaken-Total, both-Keeps, mod_player-InLobby, mod_player-Total,
  mod_player-Seated, send_dropped-Seated,
}

send_dropped-Total_lobby :
    (j : ℕ) (bs : List ℕ) → j < 16 → Total (InLobby j) (Matchmake.send_dropped j bs)
send_dropped-Total_lobby j bs lt = weaken-Total (λ w h. h.0) (send_dropped-Total j bs lt)

leave-Total : (j : ℕ) (p : Player) → j < 16 → Total (InLobby j) (Matchmake.leave_matchmaking j p)
unfolding Matchmake.leave_matchmaking
leave-Total j p lt =
    Total-if _ _ _
      (Total-seq _ _ (mod_player-InLobby j _ (λ q ok. ok)) (mod_player-Total j _)
        (send_dropped-Total_lobby j _ lt))
      (Total-when _ _ (send_dropped-Total_lobby j _ lt))

-- A round of the loop, for what the slot holds.
visit :
    (j : ℕ) (w : World) (o : Option (Option Player))
    → j < 16
    → IsSound w
    → get_elem? w.players j ≡ o
    → IsDone o
    → IsDone ((get_player j >>= λ slot. maybe slot skip (λ p. Matchmake.leave_matchmaking j p)) w)
unfolding get_player gets deref pure ◌>>=◌ maybe skip
visit j w none lt h e d = elim d [ ]
visit j w (some none) lt h e d = rw e tt
visit j w (some (some p)) lt h e d =
    let seated : Seated j w = rw e tt in rw e ((leave-Total j p lt).at w (h, seated))

stop-Total : Total IsSound Matchmake.try_to_stop_matchmaking
unfolding Matchmake.try_to_stop_matchmaking for_players
stop-Total = Total-bind _ _ (Keeps-gets _) (Total-gets _) (λ startable. Total-when startable _ (
    Total-for_range 0 16 _
      (λ j. search (keeps_rules, get_player-Keeps, leave_matchmaking-Keeps) depth 20)
      (λ j lt. record {
        at = λ w h.
            visit j w (get_elem? w.players j) (omega arith) h refl
              (get_elem?-IsDone w.players j (omega (arith, h.players_size)));
      })))

leave-Seated : (i j : ℕ) (p : Player) → Keeps (Seated i) (Matchmake.leave_matchmaking j p)
unfolding Matchmake.leave_matchmaking
leave-Seated i j p = search (keeps_rules, mod_player-Seated, send_dropped-Seated) depth 40

stop-Seated : (i : ℕ) → Keeps (Seated i) Matchmake.try_to_stop_matchmaking
unfolding Matchmake.try_to_stop_matchmaking for_players get_player
stop-Seated i = search (keeps_rules, leave-Seated) depth 40

pub try_to_stop-Total : (i : ℕ) → Total (InLobby i) Matchmake.try_to_stop_matchmaking
try_to_stop-Total i = weaken-Total (λ w h. h.0) stop-Total

pub try_to_stop-InLobby : (i : ℕ) → Keeps (InLobby i) Matchmake.try_to_stop_matchmaking
try_to_stop-InLobby i = both-Keeps try_to_stop_matchmaking-Keeps (stop-Seated i)
