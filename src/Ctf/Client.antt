-- ===== src/Ctf/Client.antt =====
-- How the game client takes a datagram of the server apart, `messageloop` of client/rxtx.c.
pub mod Wire
pub mod InputBox
pub mod Sprites
pub mod Panel
pub mod Lobby
mod Tests
use spectranet.Base.{
  ℕ, zero, suc, Bool, true, false, Option, none, some, List, [], ◌∷◌, if◌then◌else◌, ◌==◌, take,
  drop, length, ◌||◌, ltb,
}
use mathlib.Core.Option
use spectranet.Ctf.Msg

-- What the client does after a message: it goes on behind it, it stops after it, or it drops it
-- and all that follow.
pub data Reading : Type 0 where
  next : ℕ → Reading
  last : ℕ → Reading
  dump : Reading

-- The size of each message that the client knows; a map message takes all the rest.
unfoldable pub reading : ℕ → List ℕ → Reading
reading id rest =
    if id == Msg.sprite_msg
    then next 7
    else if id == Msg.rm_sprite_msg
    then next 2
    else if id == Msg.viewport
    then next 4
    else if id == Msg.map_msg
    then last (length rest)
    else if id == Msg.message_msg
    then next 43
    else if id == Msg.scoreboard
    then next 6
    else if id == Msg.flag_alert || id == Msg.ping_msg
    then next 1
    else if id == Msg.endgame_score
    then last 10
    else dump

-- The messages that are acted on, from the count and the bytes behind it, where `rd` says how to go
-- on behind each. The loop counts messages and not bytes: `none` is a read behind what was
-- received, of whatever an earlier datagram left in the buffer.
unfoldable pub walk : (ℕ → List ℕ → Reading) → ℕ → List ℕ → Option (List (ℕ × List ℕ))
walk rd zero bytes = some []
walk rd (suc n) [] = none
walk rd (suc n) (id ∷ rest) = elim (rd id rest) [
  | next k ↦
      let more = walk rd n (drop k rest) in
      if ltb (length rest) k then none else Option.map (λ l. (id, take k rest) ∷ l) more
  | last k ↦ if ltb (length rest) k then none else some ((id, take k rest) ∷ [])
  | dump ↦ some []
]

unfoldable pub walk_datagram : (ℕ → List ℕ → Reading) → List ℕ → Option (List (ℕ × List ℕ))
walk_datagram rd [] = none
walk_datagram rd (count ∷ bytes) = walk rd count bytes

unfoldable pub read_datagram : List ℕ → Option (List (ℕ × List ℕ))
unfolding walk_datagram
read_datagram = walk_datagram reading
