-- ===== src/Ctf/Receive.antt =====
-- `getMessage` of server/ctfsocket.c: a datagram from a client is taken apart and each message in
-- it is acted on; and one round of `messageLoop`.
use spectranet.Base.{
  ℕ, zero, suc, ◌+◌, ◌-◌, ◌*◌, Bool, true, false, Option, none, some, List, [], ◌∷◌, ◌++◌,
  if◌then◌else◌, get_elem?, set, length, ltb, ◌==◌, replicate, take,
}
use spectranet.Ctf.Limits.{msg_buf_sz}
use spectranet.Ctf.Msg
use spectranet.Ctf.Types.{Player, PlayerFlags, no_player_flags, Viewport, SockAddr}
use spectranet.Ctf.World.{
  skip, fault, M, maybe, Act, pure, skip, fault, ◌>>=◌, ◌>>◌, gets, modify, when, deref, mod_obj,
  the_player, mod_player,
}
use spectranet.Ctf.Buffer.{send_bye_ack}
use spectranet.Ctf.Matchmake.{
  order_teams, update_all_matchmakers, update_matchmaker, try_to_stop_matchmaking,
}
use spectranet.Ctf.Clients.{
  PlayerRef, live, buried, freed, remove_client, find_client, reset_ping, add_new_client,
  start_player, do_ping,
}
use spectranet.Ctf.Frame.{make_updates}

-- Reads and writes through the `player` pointer of `getMessage`.
unfoldable pub load_ref : PlayerRef → M Player
load_ref (live i) = the_player i
load_ref (buried k) = do slot ← gets (λ w. get_elem? w.dead_players k) >>= deref; deref slot
load_ref freed = fault

unfoldable pub mod_ref : PlayerRef → (Player → Player) → Act
mod_ref (live i) f = mod_player i f
mod_ref (buried k) f = do
  slot ← gets (λ w. get_elem? w.dead_players k) >>= deref
  p ← deref slot
  modify (λ w. record w { dead_players = set w.dead_players k (some (f p)) })
mod_ref freed f = fault

unfoldable pub set_flags : PlayerRef → (PlayerFlags → PlayerFlags) → Act
set_flags r f = mod_ref r (λ p. record p { flags = f p.flags })

-- `setPlayerTeam`: a team above 2 is ignored.
unfoldable pub set_player_team : PlayerRef → ℕ → Act
set_player_team r team =
    if ltb 2 team
    then skip
    else do mod_ref r (λ p. record p { team = team }); order_teams; update_all_matchmakers

-- `memcpy(&player->view, msgptr, sizeof(Viewport))` on a little-endian machine.
unfoldable pub read_viewport : List ℕ → Option Viewport
read_viewport (a ∷ b ∷ c ∷ d ∷ e ∷ f ∷ g ∷ h ∷ rest) =
    some (record { tx = a + 256 * b; ty = c + 256 * d; bx = e + 256 * f; by = g + 256 * h })
read_viewport _ = none

-- The byte at the pointer; there is none behind the end of the buffer.
unfoldable pub first_byte : List ℕ → M ℕ
first_byte [] = fault
first_byte (b ∷ bs) = pure b

-- What one message leaves: the pointer to the player, and how many bytes the message took, or that
-- the rest of the datagram is dropped.
pub record Handled : Type 0 where
  pub ref : PlayerRef
  pub used : ℕ
  pub stop : Bool

abbrev pub took : PlayerRef → ℕ → Handled
took r n = record { ref = r; used = n; stop = false }

-- A player who asks to be ready must be in a team.
unfoldable pub mark_ready : PlayerRef → Act
mark_ready r = do
  p ← load_ref r
  when (ltb p.team 2) (do set_flags r (λ f. record f { ready = true }); update_all_matchmakers)

unfoldable pub set_ctrls : PlayerRef → ℕ → Act
set_ctrls r b = do
  p ← load_ref r
  addr ← deref p.playerobj
  mod_obj addr (λ o. record o { ctrls = b })

-- One message, with its id and the bytes of the buffer behind the id.
unfoldable pub handle : ℕ → PlayerRef → ℕ → List ℕ → M Handled
handle i r id rest =
    if id == Msg.start
    then (do start_player i; pure (took r 1))
    else if id == Msg.control
    then (do b ← first_byte rest; set_ctrls r b; pure (took r 2))
    else if id == Msg.bye
    then (do sent ← send_bye_ack i; r' ← remove_client i; pure (took r' 1))
    else if id == Msg.client_rdy
    then (do set_flags r (λ f. record f { running = true }); pure (took r 1))
    else if id == Msg.viewport
    then (do
      v ← deref (read_viewport rest)
      mod_ref r (λ p. record p { view = v; flags = record p.flags { new_viewport = true } })
      pure (took r 9))
    else if id == Msg.ping_msg
    then pure (took r 1)
    else if id == Msg.team_request
    then (do b ← first_byte rest; set_player_team r b; pure (took r 2))
    else if id == Msg.mm_start
    then (do
      set_flags r (λ f. record f { matchmaking = true })
      update_matchmaker i
      pure (took r 1))
    else if id == Msg.mm_stop
    then (do try_to_stop_matchmaking; pure (took r 1))
    else if id == Msg.mm_ready
    then (do mark_ready r; pure (took r 1))
    else pure (record { ref = r; used = 1; stop = true })

unfoldable pub drop_bytes : ℕ → List ℕ → List ℕ
drop_bytes zero bs = bs
drop_bytes (suc n) [] = []
drop_bytes (suc n) (b ∷ bs) = drop_bytes n bs

-- `bytes` of the datagram are left, in the buffer from the message pointer on. Each message takes
-- a byte at least, so as many rounds as there are bytes are enough.
unfoldable pub handle_all : ℕ → ℕ → PlayerRef → ℕ → List ℕ → Act
handle_all zero i r bytes buf = if ltb 0 bytes then fault else skip
handle_all (suc rounds) i r bytes [] = if ltb 0 bytes then fault else skip
handle_all (suc rounds) i r bytes (id ∷ rest) =
    if ltb 0 bytes
    then (do
      h ← handle i r id rest
      if h.stop
          then skip
          else handle_all rounds i h.ref (bytes - h.used) (drop_bytes h.used (id ∷ rest)))
    else skip

-- The text up to the NUL; a text without one is read beyond the buffer.
unfoldable pub c_string : List ℕ → Option (List ℕ)
c_string [] = none
c_string (b ∷ bs) =
    if b == 0 then some [] else elim (c_string bs) [ none ↦ none | some s ↦ some (b ∷ s) ]

-- `msgbuf` after `recvfrom`: zeroed, then filled.
abbrev pub received : List ℕ → List ℕ
received bs = take msg_buf_sz (bs ++ replicate msg_buf_sz 0)

unfoldable pub greet : List ℕ → SockAddr → PlayerFlags → Act
greet buf from flags = do name ← deref (c_string buf); add_new_client name from flags

-- A client that is known has its ping data reset; the player must be there if a message asks.
unfoldable pub known : ℕ → List ℕ → ℕ → Act
known bytes buf i = do reset_ping i; handle_all bytes i (live i) bytes buf

-- `getMessage`, with what `recvfrom` received: the sender and the bytes, cut at the buffer's size.
unfoldable pub get_message : SockAddr → List ℕ → Act
get_message from bs = do
  let buf = received bs
  id ← deref (get_elem? buf 0)
  if id == Msg.hello
      then greet (drop_bytes 1 buf) from no_player_flags
      else if id == Msg.spec_hello
      then greet (drop_bytes 1 buf) from (record no_player_flags { spectator = true; ready = true })
      else (do
        found ← gets (find_client from)
        maybe found skip (λ i. known (length (take msg_buf_sz bs)) buf i))

-- What `select` reports: a datagram, or that there is none.
pub data Event : Type 0 where
  datagram : SockAddr → List ℕ → Event
  timeout : Event

-- One round of `messageLoop`.
unfoldable pub round : Event → Act
round (datagram from bs) = get_message from bs
round timeout = do make_updates; do_ping
