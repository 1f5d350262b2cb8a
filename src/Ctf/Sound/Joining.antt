-- ===== src/Ctf/Sound/Joining.antt =====
-- Clients that come and go keep the state well formed.
use spectranet.Base.{ℕ, ◌≤◌, ◌<◌, ◌==◌, ◌≡◌, ℤ, false, some, List, length-take, arith}
use spectranet.Ctf.Types.{Player, PlayerFlags, SockAddr, Ping}
use spectranet.Ctf.Keeps.{
  Yields-gets, Keeps-bind_with, Keeps-if_with, Keeps-seq, Keeps-modify, Keeps-if, Keeps-pure,
}
use spectranet.Ctf.Sound.{IsPlayer}
use spectranet.Ctf.Sound.Store.{bury-IsSound}
use spectranet.Ctf.Clients.{PlayerRef, PingStep, lost, due, wait, buried, freed}
use spectranet.Ctf.Sound.Messages.{empty_buf-IsBuf}
use spectranet.Ctf.Keeps.{Keeps}
use spectranet.Ctf.Sound.{IsSound}
use spectranet.Ctf.Clients
use spectranet.Ctf.Sound.Store.{
  load_obj-Keeps, store_obj-Keeps, obj_at-Keeps, get_player-Keeps, the_player-Keeps,
  set_player-Keeps, sendto-Keeps, set_buf-Keeps,
}
use spectranet.Ctf.Sound.Messages.{
  post-Keeps, send_message-Keeps, add_init_game_msg-Keeps, broadcast_status_msg-Keeps,
  broadcast_player_id_msg-Keeps,
}
use spectranet.Ctf.Sound.Making.{place_flag-Keeps, spawn_player-Keeps}
use spectranet.Ctf.Sound.Ends.{order_teams-Keeps, update_all_matchmakers-Keeps}
use spectranet.Ctf.Sound.Store.{state_rules}

pub new_player-IsPlayer :
    (i : ℕ) (name : List ℕ) (lives : ℤ) (f : PlayerFlags)
    → IsPlayer (Clients.new_player i name lives f)
unfolding Clients.new_player
new_player-IsPlayer i name lives f = omega (arith, length-take 15 name)

pub make_new_player-Keeps :
    (i : ℕ) (name : List ℕ) (f : PlayerFlags) → Keeps IsSound (Clients.make_new_player i name f)
unfolding Clients.make_new_player
make_new_player-Keeps i name f =
    search
      (
        state_rules, set_player-Keeps, new_player-IsPlayer, order_teams-Keeps,
        update_all_matchmakers-Keeps,
      )
      depth 40

pub abandon-Keeps : (clientid : ℕ) (addr : ℕ) → Keeps IsSound (Clients.abandon clientid addr)
unfolding Clients.abandon
abandon-Keeps clientid addr =
    search (state_rules, load_obj-Keeps, store_obj-Keeps, place_flag-Keeps) depth 40

pub abandon_slot-Keeps : (clientid : ℕ) (i : ℕ) → Keeps IsSound (Clients.abandon_slot clientid i)
unfolding Clients.abandon_slot
abandon_slot-Keeps clientid i = search (state_rules, obj_at-Keeps, abandon-Keeps) depth 40

room_left : (k : ℕ) → k ≤ 16 → (k == 16) ≡ false → k < 16
room_left k le h = ground arith

bury-Keeps : (p : Player) → Keeps IsSound (Clients.bury p)
unfolding Clients.bury
bury-Keeps p =
    Keeps-bind_with (λ k. k ≤ 16) _ _ (Yields-gets _ _ (λ w h. h.dead_in))
      λ k le.
        Keeps-if _ _ _
          (Keeps-if_with _ _ _ (λ full. Keeps-pure freed)
            λ room.
              Keeps-seq _ _ (Keeps-modify _ (bury-IsSound k (some p) (room_left k le room)))
                (Keeps-pure (buried k)))
          (Keeps-pure freed)

pub remove_player-Keeps : (clientid : ℕ) → Keeps IsSound (Clients.remove_player clientid)
unfolding Clients.remove_player
remove_player-Keeps clientid =
    search
      (
        state_rules, the_player-Keeps, set_player-Keeps, broadcast_player_id_msg-Keeps,
        order_teams-Keeps, update_all_matchmakers-Keeps, abandon_slot-Keeps, bury-Keeps,
      )
      depth 40

pub remove_client-Keeps : (clientid : ℕ) → Keeps IsSound (Clients.remove_client clientid)
unfolding Clients.remove_client
remove_client-Keeps clientid = search (state_rules, set_buf-Keeps, remove_player-Keeps) depth 40

pub drop_client-Keeps : (clientid : ℕ) → Keeps IsSound (Clients.drop_client clientid)
unfolding Clients.drop_client
drop_client-Keeps clientid = search (state_rules, remove_client-Keeps) depth 40

pub reset_ping-Keeps : (i : ℕ) → Keeps IsSound (Clients.reset_ping i)
unfolding Clients.reset_ping
reset_ping-Keeps i = search state_rules depth 40

pub admit-Keeps :
    (i : ℕ) (hello : List ℕ) (client : SockAddr) (flags : PlayerFlags)
    → Keeps IsSound (Clients.admit i hello client flags)
unfolding Clients.admit
admit-Keeps i hello client flags =
    search
      (
        state_rules, sendto-Keeps, set_buf-Keeps, make_new_player-Keeps, reset_ping-Keeps,
        empty_buf-IsBuf,
      )
      depth 40

pub add_new_client-Keeps :
    (hello : List ℕ) (client : SockAddr) (flags : PlayerFlags)
    → Keeps IsSound (Clients.add_new_client hello client flags)
unfolding Clients.add_new_client
add_new_client-Keeps hello client flags = search (state_rules, sendto-Keeps, admit-Keeps) depth 40

pub send_client_messages-Keeps : Keeps IsSound Clients.send_client_messages
unfolding Clients.send_client_messages
send_client_messages-Keeps = search (state_rules, send_message-Keeps, drop_client-Keeps) depth 40

pub store_ping-Keeps : (i : ℕ) (d : Ping) → Keeps IsSound (Clients.store_ping i d)
unfolding Clients.store_ping
store_ping-Keeps i d = search state_rules depth 40

pub run_ping-Keeps :
    (a0 : ℕ) (a1 : Player) (a2 : PingStep) → Keeps IsSound (Clients.run_ping a0 a1 a2)
unfolding Clients.run_ping
run_ping-Keeps i p lost =
    search (state_rules, broadcast_status_msg-Keeps, drop_client-Keeps) depth 40
run_ping-Keeps i p (due d) = search (state_rules, post-Keeps, store_ping-Keeps) depth 40
run_ping-Keeps i p (wait d) = search (state_rules, store_ping-Keeps) depth 40

pub do_ping-Keeps : Keeps IsSound Clients.do_ping
unfolding Clients.do_ping
do_ping-Keeps = search (state_rules, get_player-Keeps, run_ping-Keeps) depth 40

pub start_player-Keeps : (clientid : ℕ) → Keeps IsSound (Clients.start_player clientid)
unfolding Clients.start_player
start_player-Keeps clientid =
    search
      (
        state_rules, the_player-Keeps, send_message-Keeps, add_init_game_msg-Keeps,
        broadcast_player_id_msg-Keeps, spawn_player-Keeps,
      )
      depth 40
