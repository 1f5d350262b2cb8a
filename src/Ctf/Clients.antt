-- ===== src/Ctf/Clients.antt =====
-- The clients of server/ctfsocket.c, and the players of server/object.c that stand behind them.
pub mod Slots
pub mod Pings
use spectranet.Base.{
  ℕ, suc, ◌+◌, ℤ, pos, negsuc, ◌+ℤ◌, ◌-ℤ◌, ◌==ℤ◌, Bool, true, false, not, ◌&&◌, ◌||◌, Option, none,
  some, List, [], ◌∷◌, ◌++◌, if◌then◌else◌, get_elem?, set, ltb, ◌==◌, take, codes,
}
use spectranet.Ctf.Limits.{max_clients, max_objs, no_team, max_rsp_miss, ping_frames}
use spectranet.Ctf.Msg
use spectranet.Ctf.Types.{Player, PlayerFlags, no_obj_flags, Viewport, Ping, SockAddr}
use spectranet.Ctf.World.{
  World, M, maybe, Act, pure, skip, ◌>>=◌, ◌>>◌, gets, modify, when, deref, for_range, load_obj,
  store_obj, obj_at, get_player, the_player, set_player, sendto,
}
use spectranet.Ctf.Buffer.{
  empty_buf, set_buf, post, send_message, add_init_game_msg, broadcast_status_msg,
  broadcast_player_id_msg,
}
use spectranet.Ctf.Objects.{place_flag, spawn_player}
use spectranet.Ctf.Flags.{other_team}
use spectranet.Ctf.Matchmake.{order_teams, update_all_matchmakers}

-- A player who just connected: the struct is zeroed, then filled in.
unfoldable pub new_player : ℕ → List ℕ → ℤ → PlayerFlags → Player
new_player clientid name lives flags = record {
  playerobj = none;
  name = take 15 name;
  team = no_team;
  score = pos 0;
  lives = lives;
  flags = flags;
  view = if flags.spectator then whole else nowhere;
  vpcframes = pos 0;
  playernum = 0;
  clientid = clientid;
  goals = 0;
}
  where
    whole : Viewport
    whole = record { tx = 0; ty = 0; bx = 0xFFFF; by = 0xFFFF }

    nowhere : Viewport
    nowhere = record { tx = 0; ty = 0; bx = 0; by = 0 }

-- The spectator's view is set after the messages, which do not read it. `false` is the NULL that
-- is returned where `malloc` fails.
unfoldable pub make_new_player : ℕ → List ℕ → PlayerFlags → M Bool
make_new_player clientid name flags = do
  n ← gets (λ w. w.next_addr)
  have ← gets (λ w. w.malloc_ok n)
  lives ← gets (λ w. w.max_lives)
  if have
      then (do
        set_player clientid (some (new_player clientid name lives flags))
        when (not flags.spectator) (do
          modify (λ w. record w { player_count = w.player_count +ℤ pos 1 })
          order_teams
          update_all_matchmakers)
        pure true)
      else (do set_player clientid none; pure false)

-- Where a `Player *` points that was taken for a client before the client was removed.
pub data PlayerRef : Type 0 where
  live : ℕ → PlayerRef
  buried : ℕ → PlayerRef
  freed : PlayerRef

-- What a leaving player does to one object: a carried flag is put back, and what the player owns
-- vanishes. (The new flag has no owner, so a later visit of its slot leaves it alone.)
unfoldable pub abandon : ℕ → ℕ → Act
abandon clientid addr = do
  obj ← load_obj addr
  when obj.flags.has_flag (place_flag (other_team obj.team) obj.x obj.y)
  when (obj.owner ==ℤ pos clientid) (
      store_obj addr
        (record obj { flags = record no_obj_flags { vanished = true }; owner = negsuc 0 }))

unfoldable pub abandon_slot : ℕ → ℕ → Act
abandon_slot clientid i = do slot ← obj_at i; maybe slot skip (λ addr. abandon clientid addr)

-- A player who was in the game goes to the register of deaths, unless it is full.
unfoldable pub bury : Player → M PlayerRef
bury p = do
  k ← gets (λ w. w.dead_player_idx)
  if p.flags.running || p.flags.dead
      then (if k == max_clients then pure freed else (do
        modify (λ w. record w {
          dead_players = set w.dead_players k (some p);
          dead_player_idx = suc k;
        })
        pure (buried k)))
      else pure freed

-- The result tells what became of the struct.
unfoldable pub remove_player : ℕ → M PlayerRef
remove_player clientid = do
  p ← the_player clientid
  if p.flags.spectator then (do set_player clientid none; pure freed) else (do
    for_range 0 max_objs (abandon_slot clientid)
    ref ← bury p
    modify (λ w. record w { player_count = w.player_count -ℤ pos 1 })
    set_player clientid none
    order_teams
    update_all_matchmakers
    broadcast_player_id_msg
    pure ref)

-- Find the client's address in the list and remove it.
unfoldable pub remove_client : ℕ → M PlayerRef
remove_client clientid = do
  modify (λ w. record w { cliaddr = set w.cliaddr clientid none })
  set_buf clientid none
  remove_player clientid

-- A call of `removeClient` by one who holds no pointer to the player.
unfoldable pub drop_client : ℕ → Act
drop_client clientid = do ref ← remove_client clientid; skip

-- The first NULL of `cliaddr`.
unfoldable pub free_client : ℕ → List (Option SockAddr) → Option ℕ
free_client i [] = none
free_client i (none ∷ l) = some i
free_client i (some a ∷ l) = free_client (suc i) l

unfoldable pub same_addr : SockAddr → SockAddr → Bool
same_addr a b = (a.addr == b.addr) && (a.port == b.port)

-- `findClient` on the array; `none` is its -1.
unfoldable pub find_from : ℕ → SockAddr → List (Option SockAddr) → Option ℕ
unfolding same_addr
find_from i a [] = none
find_from i a (none ∷ l) = find_from (suc i) a l
find_from i a (some b ∷ l) = if same_addr a b then some i else find_from (suc i) a l

unfoldable pub find_client : SockAddr → World → Option ℕ
unfolding find_from
find_client a w = find_from 0 a w.cliaddr

abbrev pub fresh_ping : Ping
fresh_ping = record { frames = 0; rspmiss = 0 }

unfoldable pub reset_ping : ℕ → Act
reset_ping i = modify (λ w. record w { pingdata = set w.pingdata i fresh_ping })

-- A free slot takes the client; the ping data is left where the answer cannot be sent.
unfoldable pub admit : ℕ → List ℕ → SockAddr → PlayerFlags → Act
admit i hello client flags = do
  modify (λ w. record w { cliaddr = set w.cliaddr i (some client) })
  set_buf i (some empty_buf)
  made ← make_new_player i hello flags
  sent ← sendto client (Msg.ack ∷ (if made then Msg.ack_ok else Msg.unable) ∷ [])
  when sent (reset_ping i)

unfoldable pub add_new_client : List ℕ → SockAddr → PlayerFlags → Act
add_new_client hello client flags = do
  slot ← gets (λ w. free_client 0 w.cliaddr)
  maybe slot (do sent ← sendto client (Msg.ack ∷ Msg.ack_too_many ∷ []); skip)
      (λ i. admit i hello client flags)

-- Send all client message buffers; a client who cannot be sent to is removed.
unfoldable pub send_client_messages : Act
send_client_messages = for_range 0 max_clients (λ i. do
  slot ← gets (λ w. get_elem? w.cliaddr i) >>= deref
  maybe slot skip (λ a. (do sent ← send_message i; when (not sent) (drop_client i))))

-- What `doPing` does with the ping data of one client: too many answers are missing, a ping is
-- due, or one more frame has gone by.
pub data PingStep : Type 0 where
  lost : PingStep
  due : Ping → PingStep
  wait : Ping → PingStep

unfoldable pub ping_step : Ping → PingStep
ping_step d =
    if ltb max_rsp_miss d.rspmiss
    then lost
    else if ltb ping_frames d.frames
    then due (record { frames = 0; rspmiss = d.rspmiss + 1 })
    else wait (record d { frames = d.frames + 1 })

unfoldable pub store_ping : ℕ → Ping → Act
store_ping i d = modify (λ w. record w { pingdata = set w.pingdata i d })

unfoldable pub run_ping : ℕ → Player → PingStep → Act
run_ping i p lost = do drop_client i; broadcast_status_msg (take 41 (p.name ++ codes " pang out"))
run_ping i p (due d) = do post i Msg.ping_msg (0 ∷ []); store_ping i d
run_ping i p (wait d) = store_ping i d

-- The players that `doPing` looks at.
abbrev pub pinged : Player → Bool
pinged p = p.flags.matchmaking || p.flags.running

-- Ping any players that we've not heard from in a while.
unfoldable pub do_ping : Act
do_ping = for_range 0 max_clients (λ i. do
  slot ← get_player i
  maybe slot skip (λ p.
      when (pinged p)
        (do d ← gets (λ w. get_elem? w.pingdata i) >>= deref; run_ping i p (ping_step d))))

-- The starting spot for a player, and the start message; a spectator gets none.
unfoldable pub start_player : ℕ → Act
start_player clientid = do
  player ← the_player clientid
  if player.flags.spectator then skip else (do
    spawn ← spawn_player clientid
    modify (λ w. record w { running = true })
    add_init_game_msg clientid spawn
    sent ← send_message clientid
    broadcast_player_id_msg)
