-- ===== src/Ctf/Sound/Rounds.antt =====
-- The messages of the clients keep the state well formed.
use spectranet.Base.{ℕ, zero, suc, ◌-◌, ◌≤◌, ◌≡◌, false, List, [], ◌∷◌, ltb, arith}
use spectranet.Ctf.Types.{Player, PlayerFlags, SockAddr}
use spectranet.Ctf.Keeps.{
  keeps_rules, Keeps-if_with, Keeps-bind, Keeps-seq, Keeps-if, Keeps-skip, Keeps-fault,
}
use spectranet.Ctf.Sound.{IsPlayer}
use spectranet.Ctf.Clients.{PlayerRef, live, buried, freed}
use spectranet.Ctf.Receive.{Event, datagram, timeout}
use spectranet.Ctf.Keeps.{Keeps}
use spectranet.Ctf.Sound.{IsSound}
use spectranet.Ctf.Receive
use spectranet.Ctf.Sound.Store.{mod_obj-Keeps, the_player-Keeps, mod_player-Keeps}
use spectranet.Ctf.Sound.Messages.{send_bye_ack-Keeps}
use spectranet.Ctf.Sound.Ends.{
  order_teams-Keeps, update_all_matchmakers-Keeps, update_matchmaker-Keeps,
  try_to_stop_matchmaking-Keeps,
}
use spectranet.Ctf.Sound.Joining.{
  remove_client-Keeps, reset_ping-Keeps, add_new_client-Keeps, do_ping-Keeps, start_player-Keeps,
}
use spectranet.Ctf.Sound.Frames.{make_updates-Keeps}
use spectranet.Ctf.Sound.Store.{state_rules}

pub load_ref-Keeps : (a0 : PlayerRef) → Keeps IsSound (Receive.load_ref a0)
unfolding Receive.load_ref
load_ref-Keeps (live i) = search (state_rules, the_player-Keeps) depth 40
load_ref-Keeps (buried k) = search state_rules depth 40
load_ref-Keeps freed = search state_rules depth 40

pub mod_ref-Keeps :
    (r : PlayerRef) (f : Player → Player)
    → ((p : Player) → IsPlayer p → IsPlayer (f p))
    → Keeps IsSound (Receive.mod_ref r f)
unfolding Receive.mod_ref
mod_ref-Keeps (live i) f ok = mod_player-Keeps i f ok
mod_ref-Keeps (buried k) f ok = search state_rules depth 40
mod_ref-Keeps freed f ok = Keeps-fault

pub set_flags-Keeps :
    (r : PlayerRef) (f : (PlayerFlags → PlayerFlags)) → Keeps IsSound (Receive.set_flags r f)
unfolding Receive.set_flags
set_flags-Keeps r f = search (state_rules, mod_ref-Keeps) depth 40

low_team : (team : ℕ) → ltb 2 team ≡ false → team ≤ 2
low_team team h = ground arith

pub set_player_team-Keeps :
    (r : PlayerRef) (team : ℕ) → Keeps IsSound (Receive.set_player_team r team)
unfolding Receive.set_player_team
set_player_team-Keeps r team =
    Keeps-if_with _ _ _ (λ high. Keeps-skip)
      λ low.
        Keeps-seq _ _ (mod_ref-Keeps r _ (λ p h. (low_team team low, h.1)))
          (Keeps-seq _ _ order_teams-Keeps update_all_matchmakers-Keeps)

pub first_byte-Keeps : (a0 : List ℕ) → Keeps IsSound (Receive.first_byte a0)
unfolding Receive.first_byte
first_byte-Keeps [] = search state_rules depth 40
first_byte-Keeps (b ∷ bs) = search state_rules depth 40

pub mark_ready-Keeps : (r : PlayerRef) → Keeps IsSound (Receive.mark_ready r)
unfolding Receive.mark_ready
mark_ready-Keeps r =
    search (state_rules, update_all_matchmakers-Keeps, load_ref-Keeps, set_flags-Keeps) depth 40

pub set_ctrls-Keeps : (r : PlayerRef) (b : ℕ) → Keeps IsSound (Receive.set_ctrls r b)
unfolding Receive.set_ctrls
set_ctrls-Keeps r b = search (state_rules, mod_obj-Keeps, load_ref-Keeps) depth 40

pub handle-Keeps :
    (i : ℕ) (r : PlayerRef) (id : ℕ) (rest : List ℕ) → Keeps IsSound (Receive.handle i r id rest)
unfolding Receive.handle
handle-Keeps i r id rest =
    search
      (
        state_rules, send_bye_ack-Keeps, update_matchmaker-Keeps, try_to_stop_matchmaking-Keeps,
        remove_client-Keeps, start_player-Keeps, mod_ref-Keeps, set_flags-Keeps,
        set_player_team-Keeps, first_byte-Keeps, mark_ready-Keeps, set_ctrls-Keeps,
      )
      depth 40

pub handle_all-Keeps :
    (rounds i : ℕ) (r : PlayerRef) (bytes : ℕ) (buf : List ℕ)
    → Keeps IsSound (Receive.handle_all rounds i r bytes buf)
unfolding Receive.handle_all
handle_all-Keeps zero i r bytes buf = search keeps_rules
handle_all-Keeps (suc rounds) i r bytes [] = search keeps_rules
handle_all-Keeps (suc rounds) i r bytes (id ∷ rest) =
    Keeps-if _ _ _
      (Keeps-bind _ _ (handle-Keeps i r id rest) λ h.
        Keeps-if _ _ _ Keeps-skip (
          handle_all-Keeps rounds i h.ref (bytes - h.used) (Receive.drop_bytes h.used (id ∷ rest))))
      Keeps-skip

pub greet-Keeps :
    (buf : List ℕ) (from : SockAddr) (flags : PlayerFlags)
    → Keeps IsSound (Receive.greet buf from flags)
unfolding Receive.greet
greet-Keeps buf from flags = search (state_rules, add_new_client-Keeps) depth 40

pub known-Keeps : (bytes : ℕ) (buf : List ℕ) (i : ℕ) → Keeps IsSound (Receive.known bytes buf i)
unfolding Receive.known
known-Keeps bytes buf i = search (state_rules, reset_ping-Keeps, handle_all-Keeps) depth 40

pub get_message-Keeps :
    (from : SockAddr) (bs : List ℕ) → Keeps IsSound (Receive.get_message from bs)
unfolding Receive.get_message
get_message-Keeps from bs = search (state_rules, greet-Keeps, known-Keeps) depth 40

pub round-Keeps : (a0 : Event) → Keeps IsSound (Receive.round a0)
unfolding Receive.round
round-Keeps (datagram from bs) = search (state_rules, get_message-Keeps) depth 40
round-Keeps timeout = search (state_rules, do_ping-Keeps, make_updates-Keeps) depth 40
