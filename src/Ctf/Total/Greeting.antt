-- ===== src/Ctf/Total/Greeting.antt =====
-- A client that introduces itself.
use spectranet.Base.{
  ℕ, zero, suc, ◌≤◌, ◌<◌, ◌≡◌, subst, arith, true, false, Bool-cases, inl, inr, Option, none, some,
  List, [], ◌∷◌, ◌++◌, length, get_elem?, take, replicate, ◌==◌,
}
use spectranet.Ctf.Msg
use spectranet.Ctf.Types.{SockAddr, PlayerFlags, Player, no_player_flags}
use spectranet.Ctf.World.{
  World, get_player, set_player, sendto, Act, gets, modify, deref, pure, ◌>>=◌,
}
use spectranet.Ctf.Buffer
use spectranet.Ctf.Status.{for_players}
use spectranet.Ctf.Matchmake
use spectranet.Ctf.Matchmake.Teams.{order_from-numbered}
use spectranet.Ctf.Clients
use spectranet.Ctf.Receive
use spectranet.Ctf.Sound.Rounds.{get_message-Keeps}
use spectranet.Ctf.Keeps.{Keeps, After, keeps_rules}
use spectranet.Ctf.Sound.Store.{
  get_player-Keeps, sendto-Keeps, set_player-Keeps, set_buf-Keeps, state_rules,
}
use spectranet.Ctf.Sound.Ends.{order_teams-Keeps, send_dropped-Keeps, update_all_matchmakers-Keeps}
use spectranet.Ctf.Sound.Joining.{new_player-IsPlayer, make_new_player-Keeps}
use spectranet.Ctf.Sound.Messages.{send_message_buf-Keeps, empty_buf-IsBuf}
use spectranet.Ctf.Sound.{IsSound, All, Slot, IsPlayer}
use spectranet.Ctf.Total.{
  IsDone, Total, done_of, Total-pure, Total-skip, Total-gets, Total-modify, Total-bind, Total-when,
  Total-maybe, Total-read, Total-for_range, total_rules,
}

pub get_elem?-IsDone : {A : Type 0} (xs : List A) (i : ℕ) → i < length xs → IsDone (get_elem? xs i)
get_elem?-IsDone [] i h = elim h [ ]
get_elem?-IsDone (x ∷ xs) zero h = tt
get_elem?-IsDone (x ∷ xs) (suc i) h = get_elem?-IsDone xs i (omega arith)

get_player-Total : (i : ℕ) → i < 16 → Total IsSound (get_player i)
unfolding get_player
get_player-Total i lt =
    Total-read (λ w. get_elem? w.players i)
      (λ w h. get_elem?-IsDone w.players i (omega (arith, h.players_size)))

sendto-Total : (a : SockAddr) (bs : List ℕ) → Total IsSound (sendto a bs)
unfolding sendto
sendto-Total a bs = record { at = λ w h. ground arith }

send_to_slot-Total : (a : Option SockAddr) (bs : List ℕ) → Total IsSound (Buffer.send_to_slot a bs)
unfolding Buffer.send_to_slot
send_to_slot-Total none bs = Total-pure false
send_to_slot-Total (some a) bs = sendto-Total a bs

send_message_buf-Total :
    (i : ℕ) (bs : List ℕ) → i < 16 → Total IsSound (Buffer.send_message_buf i bs)
unfolding Buffer.send_message_buf
send_message_buf-Total i bs lt =
    Total-bind _ _ (search keeps_rules)
      (Total-read _ (λ w h. get_elem?-IsDone w.cliaddr i (omega (arith, h.cliaddr_size))))
      (λ slot. send_to_slot-Total slot bs)

pub send_dropped-Total :
    (i : ℕ) (bs : List ℕ) → i < 16 → Total IsSound (Matchmake.send_dropped i bs)
unfolding Matchmake.send_dropped
send_dropped-Total i bs lt =
    Total-bind _ _ (send_message_buf-Keeps i bs) (send_message_buf-Total i bs lt) (λ _. Total-skip)

-- A loop over the players never faults if its body does not, for the slots that there are.
for_players-Total :
    (body : ℕ → Player → Act)
    → ((i : ℕ) (p : Player) → Keeps IsSound (body i p))
    → ((i : ℕ) (p : Player) → i < 16 → Total IsSound (body i p))
    → Total IsSound (for_players body)
unfolding for_players
for_players-Total body k t =
    Total-for_range 0 16 _ (λ i. search (keeps_rules, get_player-Keeps) depth 9)
      (λ i lt.
        Total-bind _ _ (get_player-Keeps i) (get_player-Total i (omega arith))
          (λ slot. Total-maybe slot _ _ Total-skip (λ p. t i p (omega arith))))

pub update_all_matchmakers-Total : Total IsSound Matchmake.update_all_matchmakers
unfolding Matchmake.update_all_matchmakers Matchmake.send_to_matchmakers
update_all_matchmakers-Total = Total-bind _ _ (search keeps_rules) (Total-gets _) (λ bs.
    for_players-Total _ (λ i p. search (keeps_rules, send_dropped-Keeps) depth 9)
      (λ i p lt. Total-when _ _ (send_dropped-Total i bs lt)))

pub settled : (ps : List (Option Player)) → All (Slot IsPlayer) ps → All (Slot (λ p. p.team ≤ 2)) ps
settled [] h = tt
settled (none ∷ ps) h = (tt, settled ps h.1)
settled (some p ∷ ps) h = (h.0.0, settled ps h.1)

pub order_teams-Total : Total IsSound Matchmake.order_teams
unfolding Matchmake.order_teams Matchmake.store_players ◌>>=◌ gets modify
order_teams-Total = record {
  at = λ w h.
      rw (order_from-numbered w.players (settled w.players h.teams) (omega (arith, h.players_size)))
        tt;
}

set_player-Total : (i : ℕ) (p : Option Player) → Total IsSound (set_player i p)
unfolding set_player
set_player-Total i p = Total-modify _

make_new_player-Total :
    (i : ℕ) (name : List ℕ) (f : PlayerFlags) → Total IsSound (Clients.make_new_player i name f)
unfolding Clients.make_new_player
make_new_player-Total i name f =
    search
      (
        total_rules, state_rules, set_player-Keeps, set_player-Total, new_player-IsPlayer,
        order_teams-Keeps, order_teams-Total, update_all_matchmakers-Keeps,
        update_all_matchmakers-Total,
      )
      depth 40

admit-Total :
    (i : ℕ) (name : List ℕ) (client : SockAddr) (f : PlayerFlags)
    → Total IsSound (Clients.admit i name client f)
unfolding Clients.admit Buffer.set_buf Clients.reset_ping
admit-Total i name client f =
    search
      (
        total_rules, state_rules, sendto-Keeps, sendto-Total, set_buf-Keeps, empty_buf-IsBuf,
        make_new_player-Keeps, make_new_player-Total,
      )
      depth 40

pub add_new_client-Total :
    (name : List ℕ) (client : SockAddr) (f : PlayerFlags)
    → Total IsSound (Clients.add_new_client name client f)
unfolding Clients.add_new_client
add_new_client-Total name client f =
    search (total_rules, state_rules, sendto-Keeps, sendto-Total, admit-Total) depth 40

c_string-IsDone :
    (n : ℕ) (name rest : List ℕ)
    → length name < n
    → IsDone (Receive.c_string (take n (name ++ (0 ∷ rest))))
unfolding Receive.c_string
c_string-IsDone zero name rest h = elim h [ ]
c_string-IsDone (suc n) [] rest h = tt
c_string-IsDone (suc n) (b ∷ name) rest h = elim (Bool-cases (b == 0)) [
  | inl ends ↦ rw ends tt
  | inr goes_on ↦
      let (s, e) = done_of _ (c_string-IsDone n name rest (omega arith)) in rw (goes_on, e) tt
]

deref-some-Total : {A : Type 0} (a : A) → Total IsSound (deref (some a))
unfolding deref
deref-some-Total a = Total-pure a

greet-Total :
    (name : List ℕ) (from : SockAddr) (f : PlayerFlags)
    → length name ≤ 254
    → Total IsSound (Receive.greet (take 255 (name ++ replicate 256 0)) from f)
unfolding Receive.greet
greet-Total name from f fits =
    let (s, e) = done_of _ (c_string-IsDone 255 name (replicate 255 0) (omega arith)) in
    Total-bind _ _ (search keeps_rules) (rw e (deref-some-Total s))
      (λ n. add_new_client-Total n from f)

hello-Total :
    (name : List ℕ) (from : SockAddr)
    → length name ≤ 254
    → Total IsSound (Receive.get_message from (Msg.hello ∷ name))
unfolding Receive.get_message Receive.drop_bytes ◌>>=◌ deref pure
hello-Total name from fits = record {
  at = λ w h. (greet-Total name from no_player_flags fits).at w h;
}

spec_hello-Total :
    (name : List ℕ) (from : SockAddr)
    → length name ≤ 254
    → Total IsSound (Receive.get_message from (Msg.spec_hello ∷ name))
unfolding Receive.get_message Receive.drop_bytes ◌>>=◌ deref pure
spec_hello-Total name from fits = record {
  at = λ w h.
      (greet-Total name from (record no_player_flags { spectator = true; ready = true }) fits).at w
        h;
}

-- An action that neither faults nor breaks a property ends in a state with it.
pub outcome :
    {P : World → Type 0} {m : Act}
    → Total P m
    → Keeps P m
    → (w : World) → P w
    → (w' : World) × (m w ≡ some (tt, w')) × P w'
outcome {P} {m} total keeps w h =
    let ((u, w'), e) = done_of (m w) (total.at w h) in
    (w', e, subst (λ r. After P r) e (keeps.at w h))

-- From any well-formed state, a greeting of a player or of a spectator, with a name of at most 254
-- bytes, terminated or not, is handled without a fault and leaves a well-formed state: whether
-- there is a slot, whether the memory for the player is there, and whether the answer can be sent.
pub greeting_lem :
    (w : World) (name : List ℕ) (from : SockAddr)
    → IsSound w
    → length name ≤ 254
    → ((w' : World) × (Receive.get_message from (Msg.hello ∷ name) w ≡ some (tt, w')) × IsSound w')
      × ((w' : World) × (Receive.get_message from (Msg.spec_hello ∷ name) w ≡ some (tt, w'))
          × IsSound w')
greeting_lem w name from h fits = (
  outcome (hello-Total name from fits) (get_message-Keeps from (Msg.hello ∷ name)) w h,
  outcome (spec_hello-Total name from fits) (get_message-Keeps from (Msg.spec_hello ∷ name)) w h,
)
