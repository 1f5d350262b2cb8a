-- ===== src/Ctf/Total/Choosing.antt =====
-- The messages of a client that is choosing its team, as `getMessage` takes them from a datagram.
use spectranet.Base.{
  ℕ, zero, suc, ◌-◌, ◌≤◌, ◌<◌, ◌≡◌, refl, arith, true, false, Bool-cases, inl, inr, some, List, [],
  ◌∷◌, ◌++◌, length, if◌then◌else◌, ltb,
}
use spectranet.Ctf.Msg
use spectranet.Ctf.World.{World, M, Act, pure, skip, ◌>>=◌, ◌>>◌}
use spectranet.Ctf.Matchmake
use spectranet.Ctf.Clients.{PlayerRef, live}
use spectranet.Ctf.Receive
use spectranet.Ctf.Receive.{Handled, took}
use spectranet.Ctf.Keeps.{Keeps, Keeps-if_with, Keeps-seq, Keeps-skip, keeps_rules}
use spectranet.Ctf.Total.{Total, Total-seq, Total-skip, total_rules}
use spectranet.Ctf.Total.Greeting.{outcome, order_teams-Total, update_all_matchmakers-Total}
use spectranet.Ctf.Total.Stopping.{try_to_stop-Total, try_to_stop-InLobby}
use spectranet.Ctf.Total.Lobby.{
  InLobby, order_teams-InLobby, update_all-InLobby, update_matchmaker-InLobby, mod_player-InLobby,
  the_player-Total, the_player-InLobby, mod_player-Total, update_matchmaker-Total, set_flags-Total,
  set_flags-InLobby, weaken-Total,
}

-- The messages that a client of the game sends before it asks for its tank: those of the lobby, the
-- request to end the matchmaking among them, CLIENTRDY and the answer to a ping.
pub data LobbyMessage : Type 0 where
  client_rdy ping mm_start mm_ready mm_stop : LobbyMessage
  team_request : ℕ → LobbyMessage

abbrev pub encode : LobbyMessage → List ℕ
encode client_rdy = Msg.client_rdy ∷ []
encode ping = Msg.ping_msg ∷ []
encode mm_start = Msg.mm_start ∷ []
encode mm_ready = Msg.mm_ready ∷ []
encode mm_stop = Msg.mm_stop ∷ []
encode (team_request team) = Msg.team_request ∷ team ∷ []

abbrev pub encode_all : List LobbyMessage → List ℕ
encode_all [] = []
encode_all (m ∷ ms) = encode m ++ encode_all ms

-- The action ends with a value known beforehand, in a state with the property.
record Returns {A : Type 0} (P : World → Type 0) (a : A) (m : M A) : Type 0 where
  at : (w : World) → P w → (w' : World) × (m w ≡ some (a, w')) × P w'

Returns-pure : {A : Type 0} {P : World → Type 0} (a : A) → Returns P a (pure a)
unfolding pure
Returns-pure a = record { at = λ w h. (w, refl, h) }

Returns-seq :
    {A : Type 0} {P : World → Type 0} {a : A} (m : Act) (k : M A)
    → Total P m
    → Keeps P m
    → Returns P a k
    → Returns P a (m >> k)
unfolding ◌>>◌ ◌>>=◌
Returns-seq m k total keeps r = record {
  at = λ w h. (let (w', e, h') = outcome total keeps w h in rw e (r.at w' h'));
}

low_team : (team : ℕ) → ltb 2 team ≡ false → team ≤ 2
low_team team h = ground arith

set_player_team-Keeps : (i team : ℕ) → Keeps (InLobby i) (Receive.set_player_team (live i) team)
unfolding Receive.set_player_team Receive.mod_ref
set_player_team-Keeps i team =
    Keeps-if_with _ _ _ (λ high. Keeps-skip)
      (λ low.
        Keeps-seq _ _ (mod_player-InLobby i _ (λ p h. (low_team team low, h.1)))
          (Keeps-seq _ _ (order_teams-InLobby i) (update_all-InLobby i)))

set_player_team-Total : (i team : ℕ) → Total (InLobby i) (Receive.set_player_team (live i) team)
unfolding Receive.set_player_team Receive.mod_ref
set_player_team-Total i team = elim (Bool-cases (ltb 2 team)) [
  | inl high ↦ rw high Total-skip
  | inr low ↦ rw low (
      Total-seq _ _ (mod_player-InLobby i _ (λ p h. (low_team team low, h.1)))
        (mod_player-Total i _)
        (Total-seq _ _ (order_teams-InLobby i) (weaken-Total (λ w h. h.0) order_teams-Total)
          (weaken-Total (λ w h. h.0) update_all_matchmakers-Total)))
]

mark_ready-Keeps : (i : ℕ) → Keeps (InLobby i) (Receive.mark_ready (live i))
unfolding Receive.mark_ready Receive.load_ref
mark_ready-Keeps i =
    search (keeps_rules, the_player-InLobby, set_flags-InLobby, update_all-InLobby) depth 20

update_all-Total : (i : ℕ) → Total (InLobby i) Matchmake.update_all_matchmakers
update_all-Total i = weaken-Total (λ w h. h.0) update_all_matchmakers-Total

mark_ready-Total : (i : ℕ) → Total (InLobby i) (Receive.mark_ready (live i))
unfolding Receive.mark_ready Receive.load_ref
mark_ready-Total i =
    search
      (
        total_rules, keeps_rules, the_player-Total, the_player-InLobby, set_flags-InLobby,
        set_flags-Total, update_all-Total,
      )
      depth 20

handle-client_rdy :
    (i : ℕ) (rest : List ℕ)
    → Returns (InLobby i) (took (live i) 1) (Receive.handle i (live i) Msg.client_rdy rest)
unfolding Receive.handle
handle-client_rdy i rest =
    Returns-seq _ _ (set_flags-Total i _) (set_flags-InLobby i _) (Returns-pure _)

handle-ping :
    (i : ℕ) (rest : List ℕ)
    → Returns (InLobby i) (took (live i) 1) (Receive.handle i (live i) Msg.ping_msg rest)
unfolding Receive.handle
handle-ping i rest = Returns-pure _

handle-mm_start :
    (i : ℕ) (rest : List ℕ)
    → i < 16
    → Returns (InLobby i) (took (live i) 1) (Receive.handle i (live i) Msg.mm_start rest)
unfolding Receive.handle
handle-mm_start i rest lt = Returns-seq _ _ (set_flags-Total i _) (set_flags-InLobby i _) (
    Returns-seq _ _ (update_matchmaker-Total i i lt) (update_matchmaker-InLobby i i)
      (Returns-pure _))

handle-mm_ready :
    (i : ℕ) (rest : List ℕ)
    → Returns (InLobby i) (took (live i) 1) (Receive.handle i (live i) Msg.mm_ready rest)
unfolding Receive.handle
handle-mm_ready i rest = Returns-seq _ _ (mark_ready-Total i) (mark_ready-Keeps i) (Returns-pure _)

handle-mm_stop :
    (i : ℕ) (rest : List ℕ)
    → Returns (InLobby i) (took (live i) 1) (Receive.handle i (live i) Msg.mm_stop rest)
unfolding Receive.handle
handle-mm_stop i rest =
    Returns-seq _ _ (try_to_stop-Total i) (try_to_stop-InLobby i) (Returns-pure _)

handle-team_request :
    (i team : ℕ) (rest : List ℕ)
    → Returns
        (InLobby i)
        (took (live i) 2)
        (Receive.handle i (live i) Msg.team_request (team ∷ rest))
unfolding Receive.handle Receive.first_byte ◌>>=◌ pure
handle-team_request i team rest = record {
  at = λ w h.
      (Returns-seq _ _ (set_player_team-Total i team) (set_player_team-Keeps i team)
          (Returns-pure (took (live i) 2))).at
        w h;
}

positive : (b : ℕ) → ltb 0 (suc b) ≡ true
positive b = ground arith

step_on :
    {P : World → Type 0} (rounds i n left bytes : ℕ) (r : PlayerRef) (id : ℕ) (rest : List ℕ)
    (w w' : World)
    → Receive.handle i r id rest w ≡ some (took r n, w')
    → bytes - n ≡ left
    → (v : World) × (Receive.handle_all rounds i r left (Receive.drop_bytes n (id ∷ rest)) w'
        ≡ some (tt, v))
      × P v
    → (v : World) × ((Receive.handle i r id rest >>= λ h.
            if h.stop
            then skip
            else Receive.handle_all rounds i h.ref
                (bytes - h.used)
                (Receive.drop_bytes h.used (id ∷ rest)))
          w
        ≡ some (tt, v))
      × P v
unfolding ◌>>=◌
step_on rounds i n left bytes r id rest w w' e uses done = rw (◌>>=◌, e, uses) done

round_lem :
    {P : World → Type 0} (rounds i n b left : ℕ) (r : PlayerRef) (id : ℕ) (rest : List ℕ)
    → suc b - n ≡ left
    → Returns P (took r n) (Receive.handle i r id rest)
    → Returns P tt (Receive.handle_all rounds i r left (Receive.drop_bytes n (id ∷ rest)))
    → Returns P tt (Receive.handle_all (suc rounds) i r (suc b) (id ∷ rest))
unfolding Receive.handle_all
round_lem {P} rounds i n b left r id rest uses first more = record {
  at = λ w h.
      (let (w', e, h') = first.at w h in
        rw (positive b) (step_on rounds i n left (suc b) r id rest w w' e uses (more.at w' h')));
}

no_more :
    {P : World → Type 0} (rounds i : ℕ) (r : PlayerRef) (buf : List ℕ)
    → Returns P tt (Receive.handle_all rounds i r 0 buf)
unfolding Receive.handle_all skip
no_more zero i r buf = record { at = λ w h. (w, refl, h) }
no_more (suc rounds) i r [] = record { at = λ w h. (w, refl, h) }
no_more (suc rounds) i r (b ∷ buf) = record { at = λ w h. (w, refl, h) }

handle_all-Returns :
    (rounds i : ℕ) (ms : List LobbyMessage) (buf : List ℕ)
    → i < 16
    → length (encode_all ms) ≤ rounds
    → Returns
        (InLobby i)
        tt
        (Receive.handle_all rounds i (live i) (length (encode_all ms)) (encode_all ms ++ buf))
unfolding Receive.drop_bytes
handle_all-Returns rounds i [] buf lt h = no_more rounds i (live i) buf
handle_all-Returns zero i (client_rdy ∷ ms) buf lt h = elim h [ ]
handle_all-Returns zero i (ping ∷ ms) buf lt h = elim h [ ]
handle_all-Returns zero i (mm_start ∷ ms) buf lt h = elim h [ ]
handle_all-Returns zero i (mm_ready ∷ ms) buf lt h = elim h [ ]
handle_all-Returns zero i (mm_stop ∷ ms) buf lt h = elim h [ ]
handle_all-Returns zero i (team_request team ∷ ms) buf lt h = elim h [ ]
handle_all-Returns (suc rounds) i (client_rdy ∷ ms) buf lt h =
    round_lem rounds i 1 _ _ _ _ _ (omega arith) (handle-client_rdy i _)
      (handle_all-Returns rounds i ms buf lt (omega arith))
handle_all-Returns (suc rounds) i (ping ∷ ms) buf lt h =
    round_lem rounds i 1 _ _ _ _ _ (omega arith) (handle-ping i _)
      (handle_all-Returns rounds i ms buf lt (omega arith))
handle_all-Returns (suc rounds) i (mm_start ∷ ms) buf lt h =
    round_lem rounds i 1 _ _ _ _ _ (omega arith) (handle-mm_start i _ lt)
      (handle_all-Returns rounds i ms buf lt (omega arith))
handle_all-Returns (suc rounds) i (mm_ready ∷ ms) buf lt h =
    round_lem rounds i 1 _ _ _ _ _ (omega arith) (handle-mm_ready i _)
      (handle_all-Returns rounds i ms buf lt (omega arith))
handle_all-Returns (suc rounds) i (mm_stop ∷ ms) buf lt h =
    round_lem rounds i 1 _ _ _ _ _ (omega arith) (handle-mm_stop i _)
      (handle_all-Returns rounds i ms buf lt (omega arith))
handle_all-Returns (suc rounds) i (team_request team ∷ ms) buf lt h =
    round_lem rounds i 2 _ _ _ _ _ (omega arith) (handle-team_request i team _)
      (handle_all-Returns rounds i ms buf lt (omega arith))

-- A client that has its player can send any number of messages of the lobby in one datagram, the
-- request to end the matchmaking among them, in any order and with any team numbers: the loop over the datagram ends without a fault, within as
-- many rounds as the datagram has bytes, and the state stays well formed with the player in place.
pub handle_all_lem :
    (i : ℕ) (ms : List LobbyMessage) (buf : List ℕ) (w : World)
    → i < 16
    → InLobby i w
    → (w' : World) × (Receive.handle_all
          (length (encode_all ms))
          i
          (live i)
          (length (encode_all ms))
          (encode_all ms ++ buf)
          w
        ≡ some (tt, w'))
      × InLobby i w'
handle_all_lem i ms buf w lt h = (handle_all-Returns _ i ms buf lt (omega arith)).at w h
