-- ===== src/Ctf/Buffer.antt =====
-- The output buffers of server/ctfsocket.c: messages are queued with their ids and sent as one
-- datagram to a client, headed by their number.
use spectranet.Base.{
  ℕ, suc, ◌+◌, ◌%◌, ℤ, Bool, true, false, Option, none, some, List, [], ◌∷◌, ◌++◌, if◌then◌else◌,
  get_elem?, set, length, ltb, take, le16, mod_ℤ, c_field,
}
use spectranet.Ctf.Limits.{msg_buf_sz, max_clients, max_status_msg}
use spectranet.Ctf.Msg
use spectranet.Ctf.Types.{MapXy, SockAddr, Player}
use spectranet.Ctf.World.{
  MsgBuf, M, maybe, Act, pure, skip, fault, ◌>>=◌, ◌>>◌, gets, modify, when, deref, for_range,
  sendto, get_player,
}

-- The buffer of a new client.
abbrev pub empty_buf : MsgBuf
empty_buf = record { count = 0; body = [] }

-- The part of `addMessage` that works on one buffer; `none` is its error return. The write pointer
-- stands behind the count byte and the body.
unfoldable pub buf_add : MsgBuf → ℕ → List ℕ → Option MsgBuf
buf_add b id msg =
    if ltb msg_buf_sz (1 + length b.body + length msg + 2)
    then none
    else some (record { count = (b.count + 1) % 256; body = b.body ++ (id ∷ msg) })

unfoldable pub get_buf : ℕ → M (Option MsgBuf)
get_buf i = gets (λ w. get_elem? w.player_buf i) >>= deref

unfoldable pub set_buf : ℕ → Option MsgBuf → Act
set_buf i b = modify (λ w. record w { player_buf = set w.player_buf i b })

unfoldable pub store_added : ℕ → Option MsgBuf → M Bool
store_added i none = pure false
store_added i (some b) = do set_buf i (some b); pure true

-- Where the client has no buffer, both pointers are NULL: a message that passes the test of the
-- size is written through NULL.
unfoldable pub add_to_slot : ℕ → ℕ → List ℕ → Option MsgBuf → M Bool
add_to_slot i id msg none = if ltb msg_buf_sz (length msg + 2) then pure false else fault
add_to_slot i id msg (some b) = store_added i (buf_add b id msg)

unfoldable pub add_message : ℕ → ℕ → List ℕ → M Bool
add_message i id msg = get_buf i >>= add_to_slot i id msg

-- A call of `addMessage` whose result is dropped.
unfoldable pub post : ℕ → ℕ → List ℕ → Act
post i id msg = do added ← add_message i id msg; skip

-- `sendto` to `cliaddr[clientno]`; a NULL address is refused by the call.
unfoldable pub send_to_slot : Option SockAddr → List ℕ → M Bool
send_to_slot none bs = pure false
send_to_slot (some a) bs = sendto a bs

unfoldable pub send_message_buf : ℕ → List ℕ → M Bool
send_message_buf i bs = do slot ← gets (λ w. get_elem? w.cliaddr i) >>= deref; send_to_slot slot bs

-- A datagram is sent if there is a message in it, and then the buffer is emptied; `false` is the
-- error return.
unfoldable pub send_buf : ℕ → MsgBuf → M Bool
send_buf i b = if ltb (1 + length b.body) 2 then pure true else do
  sent ← send_message_buf i (b.count ∷ b.body)
  if sent then (do set_buf i (some empty_buf); pure true) else pure false

-- With NULL pointers the number of bytes is 0, and nothing is sent.
unfoldable pub send_slot : ℕ → Option MsgBuf → M Bool
send_slot i none = pure true
send_slot i (some b) = send_buf i b

unfoldable pub send_message : ℕ → M Bool
send_message i = get_buf i >>= send_slot i

unfoldable pub send_bye_ack : ℕ → M Bool
send_bye_ack i = send_message_buf i (1 ∷ Msg.bye_ack ∷ [])

unfoldable pub map_xy_bytes : MapXy → List ℕ
map_xy_bytes xy = le16 xy.mapx ++ le16 xy.mapy

unfoldable pub add_init_game_msg : ℕ → MapXy → Act
add_init_game_msg i xy = post i Msg.start_ack (map_xy_bytes xy)

-- The arguments are converted to `uint16_t`.
unfoldable pub add_change_viewport_msg : ℕ → ℤ → ℤ → Act
add_change_viewport_msg i x y =
    post i Msg.viewport (map_xy_bytes (record { mapx = mod_ℤ x 65536; mapy = mod_ℤ y 65536 }))

unfoldable pub broadcast_status_msg : List ℕ → Act
broadcast_status_msg str = do
  junk ← gets (λ w. w.junk)
  let text = take 41 str
  for_range 0 max_clients (λ i. do
    slot ← gets (λ w. get_elem? w.cliaddr i) >>= deref
    maybe slot skip (λ a. post i Msg.message_msg (length text ∷ c_field max_status_msg junk text)))

-- `PlayerIdMsg`.
unfoldable pub player_id_msg : ℕ → ℕ → Player → List ℕ
unfolding c_field
player_id_msg junk i p = i ∷ c_field 16 junk p.name

unfoldable pub player_id_msgs : ℕ → ℕ → List (Option Player) → List (List ℕ)
unfolding player_id_msg
player_id_msgs junk i [] = []
player_id_msgs junk i (none ∷ ps) = player_id_msgs junk (suc i) ps
player_id_msgs junk i (some p ∷ ps) =
    if p.flags.spectator
    then player_id_msgs junk (suc i) ps
    else player_id_msg junk i p ∷ player_id_msgs junk (suc i) ps

unfoldable pub post_all : ℕ → ℕ → List (List ℕ) → Act
post_all i id [] = skip
post_all i id (m ∷ ms) = do post i id m; post_all i id ms

-- Each spectator is told the names of all players.
unfoldable pub broadcast_player_id_msg : Act
broadcast_player_id_msg = do
  junk ← gets (λ w. w.junk)
  ids ← gets (λ w. player_id_msgs junk 0 w.players)
  for_range 0 max_clients (λ i. do
    slot ← get_player i
    maybe slot skip (λ p. when p.flags.spectator (post_all i Msg.player_id_msg ids)))
