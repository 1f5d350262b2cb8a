-- ===== src/Ctf/Total/Arrival.antt =====
-- The slot of a client that arrives.
use spectranet.Base.{
  ℕ, ◌≡◌, ◌≢◌, refl, subst, ap, ◌∙◌, arith, ◌∷◌, if◌then◌else◌, pos, ◌+ℤ◌, Option, none, some, List,
  [], get_elem?, set,
}
use spectranet.Ctf.Types.{Player, PlayerFlags, SockAddr}
use spectranet.Ctf.World.{
  World, gets, modify, maybe, set_player, get_player, sendto, when, MsgBuf, ◌>>=◌, ◌>>◌,
}
use spectranet.Ctf.Msg
use spectranet.Ctf.Buffer
use spectranet.Ctf.Status.{for_players}
use spectranet.Ctf.Matchmake
use spectranet.Ctf.Clients
use spectranet.Ctf.Clients.{find_client, free_client, find_from}
use spectranet.Ctf.Clients.Slots.{find-put}
use spectranet.Ctf.Keeps.{Keeps, After, Keeps-modify, Keeps-fault, keeps_rules}
use spectranet.Ctf.Sound.{IsSound}
use spectranet.Ctf.Sound.Joining.{add_new_client-Keeps}
use spectranet.Ctf.Total.Greeting.{outcome, add_new_client-Total}

-- The addresses of the clients are these.
abbrev pub HasClients : List (Option SockAddr) → World → Type 0
HasClients l w = w.cliaddr ≡ l

module _ (l : List (Option SockAddr)) where
  sendto-HasClients : (a : SockAddr) (bs : List ℕ) → Keeps (HasClients l) (sendto a bs)
  unfolding sendto
  sendto-HasClients a bs = record { at = λ w h. ground arith }

  send_to_slot-HasClients :
      (a : Option SockAddr) (bs : List ℕ) → Keeps (HasClients l) (Buffer.send_to_slot a bs)
  unfolding Buffer.send_to_slot
  send_to_slot-HasClients none bs = search keeps_rules
  send_to_slot-HasClients (some a) bs = sendto-HasClients a bs

  send_dropped-HasClients :
      (i : ℕ) (bs : List ℕ) → Keeps (HasClients l) (Matchmake.send_dropped i bs)
  unfolding Matchmake.send_dropped Buffer.send_message_buf
  send_dropped-HasClients i bs = search (keeps_rules, send_to_slot-HasClients) depth 20

  update_all-HasClients : Keeps (HasClients l) Matchmake.update_all_matchmakers
  unfolding Matchmake.update_all_matchmakers Matchmake.send_to_matchmakers for_players get_player
  update_all-HasClients = search (keeps_rules, send_dropped-HasClients) depth 40

  set_player-HasClients : (i : ℕ) (p : Option Player) → Keeps (HasClients l) (set_player i p)
  unfolding set_player
  set_player-HasClients i p = Keeps-modify _ (λ w h. h)

  store_players-HasClients :
      (o : Option (List (Option Player))) → Keeps (HasClients l) (Matchmake.store_players o)
  unfolding Matchmake.store_players
  store_players-HasClients none = Keeps-fault
  store_players-HasClients (some ps) = Keeps-modify _ (λ w h. h)

  order_teams-HasClients : Keeps (HasClients l) Matchmake.order_teams
  unfolding Matchmake.order_teams
  order_teams-HasClients = search (keeps_rules, store_players-HasClients) depth 20

  count_player :
      Keeps (HasClients l) (modify (λ w. record w { player_count = w.player_count +ℤ pos 1 }))
  count_player = Keeps-modify _ (λ w h. h)

  make_new_player-HasClients :
      (i : ℕ) (name : List ℕ) (f : PlayerFlags)
      → Keeps (HasClients l) (Clients.make_new_player i name f)
  unfolding Clients.make_new_player
  make_new_player-HasClients i name f =
      search
        (
          keeps_rules, set_player-HasClients, order_teams-HasClients, update_all-HasClients,
          count_player,
        )
        depth 40

  set_buf-HasClients : (i : ℕ) (b : Option MsgBuf) → Keeps (HasClients l) (Buffer.set_buf i b)
  unfolding Buffer.set_buf
  set_buf-HasClients i b = Keeps-modify _ (λ w h. h)

  reset_ping-HasClients : (i : ℕ) → Keeps (HasClients l) (Clients.reset_ping i)
  unfolding Clients.reset_ping
  reset_ping-HasClients i = Keeps-modify _ (λ w h. h)

  seated :
      (i : ℕ) (name : List ℕ) (client : SockAddr) (f : PlayerFlags)
      → Keeps (HasClients l) (do
        Buffer.set_buf i (some Buffer.empty_buf)
        made ← Clients.make_new_player i name f
        sent ← sendto client (Msg.ack ∷ (if made then Msg.ack_ok else Msg.unable) ∷ [])
        when sent (Clients.reset_ping i))
  seated i name client f =
      search
        (
          keeps_rules, set_buf-HasClients, make_new_player-HasClients, sendto-HasClients,
          reset_ping-HasClients,
        )
        depth 40

-- The address of a new client stands in the slot that was free, and the others stay.
admitted :
    (w : World) (name : List ℕ) (client : SockAddr) (f : PlayerFlags) (i : ℕ)
    → free_client 0 w.cliaddr ≡ some i
    → After (HasClients (set w.cliaddr i (some client))) (Clients.add_new_client name client f w)
unfolding Clients.add_new_client Clients.admit gets modify maybe ◌>>=◌ ◌>>◌
admitted w name client f i free = rw free (
    (seated (set w.cliaddr i (some client)) i name client f).at
      (record w { cliaddr = set w.cliaddr i (some client) }) refl)

-- When a client whose address no slot has says HELLO to a server in a well-formed state, and a slot
-- is free, `addNewClient` does not fault, and after it `findClient` finds the new address in the slot
-- that was free, and every other address, also one that differs by its port only, where it was, or
-- not at all as before.
pub find_client-add_new_client :
    (w : World) (name : List ℕ) (client : SockAddr) (f : PlayerFlags) (i : ℕ)
    → IsSound w
    → free_client 0 w.cliaddr ≡ some i
    → find_client client w ≡ none
    → (w' : World) × (Clients.add_new_client name client f w ≡ some (tt, w'))
      × (get_elem? w.cliaddr i ≡ some none)
      × (find_client client w' ≡ some i)
      × ((c : SockAddr) → c ≢ client → find_client c w' ≡ find_client c w)
unfolding find_client
find_client-add_new_client w name client f i h free new =
    let (w', e, h') =
      outcome (add_new_client-Total name client f) (add_new_client-Keeps name client f) w h in
    let placed =
      subst (λ r. After (HasClients (set w.cliaddr i (some client))) r) e
        (admitted w name client f i free) in
    let (empty, found, others) = find-put i client w.cliaddr free new in
    (
      w',
      e,
      empty,
      ap (λ l. find_from 0 client l) placed ∙ found,
      λ c apart. ap (λ l. find_from 0 c l) placed ∙ others c apart,
    )
