-- ===== src/Ctf/Total/Lobby.antt =====
-- A client that is still choosing its team.
use spectranet.Base.{
  ℕ, zero, suc, ◌≤◌, ◌<◌, ◌≡◌, refl, arith, Option, none, some, List, [], ◌∷◌, get_elem?, set,
}
use spectranet.Ctf.Types.{Player, PlayerFlags, SockAddr}
use spectranet.Ctf.World.{
  World, M, pure, gets, modify, deref, get_player, the_player, set_player, mod_player, ◌>>=◌,
  sendto,
}
use spectranet.Ctf.Buffer
use spectranet.Ctf.Status.{for_players}
use spectranet.Ctf.Matchmake
use spectranet.Ctf.Clients.{live}
use spectranet.Ctf.Receive
use spectranet.Ctf.Receive.{Handled, took}
use spectranet.Ctf.Keeps.{Keeps, After, Keeps-modify, keeps_rules}
use spectranet.Ctf.Sound.{IsSound, IsPlayer}
use spectranet.Ctf.Sound.Store.{mod_player-Keeps}
use spectranet.Ctf.Sound.Ends.{
  order_teams-Keeps, update_all_matchmakers-Keeps, update_matchmaker-Keeps,
}
use spectranet.Ctf.Total.{Total, total_rules}
use spectranet.Ctf.Total.Greeting.{send_dropped-Total, settled}
use spectranet.Ctf.Matchmake.Teams.{numbered, order_from-numbered}

-- A slot that is there and holds a player.
abbrev pub Holds : Option (Option Player) → Type 0
Holds none = 1 ≤ 0
Holds (some none) = 1 ≤ 0
Holds (some (some p)) = Unit {0}

abbrev pub Seated : ℕ → World → Type 0
Seated i w = Holds (get_elem? w.players i)

set-Holds :
    (ps : List (Option Player)) (i j : ℕ) (p : Player)
    → Holds (get_elem? ps i)
    → Holds (get_elem? (set ps j (some p)) i)
set-Holds [] i j p h = h
set-Holds (q ∷ ps) zero zero p h = tt
set-Holds (q ∷ ps) zero (suc j) p h = h
set-Holds (q ∷ ps) (suc i) zero p h = h
set-Holds (q ∷ ps) (suc i) (suc j) p h = set-Holds ps i j p h

set_player-Seated : (i j : ℕ) (p : Player) → Keeps (Seated i) (set_player j (some p))
unfolding set_player
set_player-Seated i j p = Keeps-modify _ (λ w h. set-Holds w.players i j p h)

pub mod_player-Seated : (i j : ℕ) (f : Player → Player) → Keeps (Seated i) (mod_player j f)
unfolding mod_player the_player get_player
mod_player-Seated i j f = search (keeps_rules, set_player-Seated) depth 20

sendto-Seated : (i : ℕ) (a : SockAddr) (bs : List ℕ) → Keeps (Seated i) (sendto a bs)
unfolding sendto
sendto-Seated i a bs = record { at = λ w h. ground arith }

send_to_slot-Seated :
    (i : ℕ) (a : Option SockAddr) (bs : List ℕ) → Keeps (Seated i) (Buffer.send_to_slot a bs)
unfolding Buffer.send_to_slot
send_to_slot-Seated i none bs = search keeps_rules
send_to_slot-Seated i (some a) bs = sendto-Seated i a bs

pub send_dropped-Seated : (i j : ℕ) (bs : List ℕ) → Keeps (Seated i) (Matchmake.send_dropped j bs)
unfolding Matchmake.send_dropped Buffer.send_message_buf
send_dropped-Seated i j bs = search (keeps_rules, send_to_slot-Seated) depth 20

update_all-Seated : (i : ℕ) → Keeps (Seated i) Matchmake.update_all_matchmakers
unfolding Matchmake.update_all_matchmakers Matchmake.send_to_matchmakers for_players get_player
update_all-Seated i = search (keeps_rules, send_dropped-Seated) depth 40

update_matchmaker-Seated : (i j : ℕ) → Keeps (Seated i) (Matchmake.update_matchmaker j)
unfolding Matchmake.update_matchmaker
update_matchmaker-Seated i j = search (keeps_rules, send_dropped-Seated) depth 20

numbered_slot-Holds :
    (a b c : ℕ) (p : Player) (ps : List (Option Player))
    → ((a b c i : ℕ) → Holds (get_elem? ps i) → Holds (get_elem? (numbered a b c ps) i))
    → (t i : ℕ) → Holds (get_elem? (some p ∷ ps) i)
    → Holds (
        get_elem?
          (elim t [
            | zero ↦ some (record p { playernum = a }) ∷ numbered (suc a) b c ps
            | suc zero ↦ some (record p { playernum = b }) ∷ numbered a (suc b) c ps
            | suc (suc n) ↦ some (record p { playernum = c }) ∷ numbered a b (suc c) ps
          ])
          i)
numbered_slot-Holds a b c p ps rest zero zero h = tt
numbered_slot-Holds a b c p ps rest (suc zero) zero h = tt
numbered_slot-Holds a b c p ps rest (suc (suc n)) zero h = tt
numbered_slot-Holds a b c p ps rest zero (suc i) h = rest (suc a) b c i h
numbered_slot-Holds a b c p ps rest (suc zero) (suc i) h = rest a (suc b) c i h
numbered_slot-Holds a b c p ps rest (suc (suc n)) (suc i) h = rest a b (suc c) i h

numbered-Holds :
    (ps : List (Option Player)) (a b c i : ℕ)
    → Holds (get_elem? ps i)
    → Holds (get_elem? (numbered a b c ps) i)
numbered-Holds [] a b c i h = h
numbered-Holds (none ∷ ps) a b c zero h = h
numbered-Holds (none ∷ ps) a b c (suc i) h = numbered-Holds ps a b c i h
numbered-Holds (some p ∷ ps) a b c i h =
    numbered_slot-Holds a b c p ps (numbered-Holds ps) p.team i h

-- The state is well formed, and the client in the slot has its player.
abbrev pub InLobby : ℕ → World → Type 0
InLobby i w = IsSound w × Seated i w

both-After :
    {A : Type 0} (P Q : World → Type 0) (r : Option (A × World))
    → After P r
    → After Q r
    → After (λ w. P w × Q w) r
both-After P Q none p q = tt
both-After P Q (some (a, w)) p q = (p, q)

pub both-Keeps :
    {A : Type 0} {P Q : World → Type 0} {m : M A} → Keeps P m → Keeps Q m → Keeps (λ w. P w × Q w) m
both-Keeps {P} {Q} {m} kp kq = record {
  at = λ w h. both-After P Q (m w) (kp.at w h.0) (kq.at w h.1);
}

pub weaken-Total :
    {A : Type 0} {P Q : World → Type 0} {m : M A}
    → ((w : World) → Q w → P w)
    → Total P m
    → Total Q m
weaken-Total f t = record { at = λ w h. t.at w (f w h) }

pub order_teams-InLobby : (i : ℕ) → Keeps (InLobby i) Matchmake.order_teams
unfolding Matchmake.order_teams Matchmake.store_players ◌>>=◌ gets modify
order_teams-InLobby i = record {
  at = λ w h.
      let e =
        order_from-numbered w.players (settled w.players h.0.teams)
          (omega (arith, h.0.players_size)) in
      both-After IsSound (Seated i) (Matchmake.order_teams w) (order_teams-Keeps.at w h.0)
        (rw (Matchmake.order_teams, e) (numbered-Holds w.players 0 0 0 i h.1));
}

pub update_all-InLobby : (i : ℕ) → Keeps (InLobby i) Matchmake.update_all_matchmakers
update_all-InLobby i = both-Keeps update_all_matchmakers-Keeps (update_all-Seated i)

pub update_matchmaker-InLobby : (i j : ℕ) → Keeps (InLobby i) (Matchmake.update_matchmaker j)
update_matchmaker-InLobby i j =
    both-Keeps (update_matchmaker-Keeps j) (update_matchmaker-Seated i j)

pub mod_player-InLobby :
    (i : ℕ) (f : Player → Player)
    → ((p : Player) → IsPlayer p → IsPlayer (f p))
    → Keeps (InLobby i) (mod_player i f)
mod_player-InLobby i f ok = both-Keeps (mod_player-Keeps i f ok) (mod_player-Seated i i f)

seat_of : (o : Option (Option Player)) → Holds o → (p : Player) × (o ≡ some (some p))
seat_of none h = elim h [ ]
seat_of (some none) h = elim h [ ]
seat_of (some (some p)) h = (p, refl)

pub the_player-Total : (i : ℕ) → Total (InLobby i) (the_player i)
unfolding the_player get_player ◌>>=◌ gets deref pure
the_player-Total i = record {
  at = λ w h. (let (p, e) = seat_of (get_elem? w.players i) h.1 in rw e tt);
}

pub the_player-InLobby : (i : ℕ) → Keeps (InLobby i) (the_player i)
unfolding the_player get_player
the_player-InLobby i = search keeps_rules

pub mod_player-Total : (i : ℕ) (f : Player → Player) → Total (InLobby i) (mod_player i f)
unfolding mod_player set_player
mod_player-Total i f =
    search (total_rules, keeps_rules, the_player-Total, the_player-InLobby) depth 20

pub update_matchmaker-Total : (i j : ℕ) → j < 16 → Total (InLobby i) (Matchmake.update_matchmaker j)
unfolding Matchmake.update_matchmaker
update_matchmaker-Total i j lt =
    weaken-Total (λ w h. h.0) (search (total_rules, keeps_rules, send_dropped-Total) depth 20)

pub set_flags-Total :
    (i : ℕ) (f : PlayerFlags → PlayerFlags) → Total (InLobby i) (Receive.set_flags (live i) f)
unfolding Receive.set_flags Receive.mod_ref
set_flags-Total i f = mod_player-Total i _

pub set_flags-InLobby :
    (i : ℕ) (f : PlayerFlags → PlayerFlags) → Keeps (InLobby i) (Receive.set_flags (live i) f)
unfolding Receive.set_flags Receive.mod_ref
set_flags-InLobby i f = mod_player-InLobby i _ (λ p ok. ok)
