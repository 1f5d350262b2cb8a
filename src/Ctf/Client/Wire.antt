-- ===== src/Ctf/Client/Wire.antt =====
-- What the server queues is what the client reads.
use spectranet.Base.{
  ℕ, suc, ◌+◌, ◌-◌, ◌≡◌, refl, sym, ap, ◌∙◌, ℤ, Option, none, some, List, [], ◌∷◌, ◌++◌, append-nil,
  append_assoc, length, take, drop, length-append, length-take, length-replicate, replicate, arith,
  c_field, decimal, ltb, false, Bool-cases, inl, inr,
}
use spectranet.Ctf.Msg
use spectranet.Ctf.Types.{Object, Viewport, MapXy}
use spectranet.Ctf.World.{MsgBuf}
use spectranet.Ctf.Buffer.{buf_add, empty_buf, map_xy_bytes}
use spectranet.Ctf.Status.{number_msg, flag_direction}
use spectranet.Ctf.View.{sprite_msg}
use spectranet.Ctf.Sound.{frames, All}
use spectranet.Ctf.Sound.Messages.{packed, buf_add-packed}
use spectranet.Ctf.Client.{Reading, next, reading, walk, walk_datagram, read_datagram}

-- A message of a size that a reader goes on behind.
abbrev pub KnownBy : (ℕ → List ℕ → Reading) → ℕ × List ℕ → Type 0
KnownBy rd (id, msg) = (rest : List ℕ) → rd id rest ≡ next (length msg)

-- A message of a size that the client goes on behind.
abbrev pub Known : ℕ × List ℕ → Type 0
Known = KnownBy reading

take-append_length : (xs ys : List ℕ) → take (length xs) (xs ++ ys) ≡ xs
take-append_length [] ys = refl
take-append_length (x ∷ xs) ys = ap (λ l. x ∷ l) (take-append_length xs ys)

drop-append_length : (xs ys : List ℕ) → drop (length xs) (xs ++ ys) ≡ ys
drop-append_length [] ys = refl
drop-append_length (x ∷ xs) ys = drop-append_length xs ys

pub walk-frames :
    (rd : ℕ → List ℕ → Reading) (ms : List (ℕ × List ℕ))
    → All (KnownBy rd) ms
    → walk rd (length ms) (frames ms) ≡ some ms
unfolding walk
walk-frames rd [] k = refl
walk-frames rd ((id, msg) ∷ ms) k =
    let long = length-append msg (frames ms) in
    let enough : ltb (length (msg ++ frames ms)) (length msg) ≡ false = ground arith in
    rw (k.0 (msg ++ frames ms), walk)
      (rw
        (
          enough,
          take-append_length msg (frames ms),
          drop-append_length msg (frames ms),
          walk-frames rd ms k.1,
        )
        refl)

abbrev and_then : Option MsgBuf → (MsgBuf → Option MsgBuf) → Option MsgBuf
and_then none f = none
and_then (some b) f = f b

-- The server queues the messages in turn; `none` where one does not fit.
abbrev pub queue_all : MsgBuf → List (ℕ × List ℕ) → Option MsgBuf
queue_all b [] = some b
queue_all b ((id, msg) ∷ ms) = and_then (buf_add b id msg) (λ b'. queue_all b' ms)

queue_all-packed :
    (ms ns : List (ℕ × List ℕ)) {b : MsgBuf}
    → queue_all (packed ms) ns ≡ some b
    → b ≡ packed (ms ++ ns)
queue_all-packed ms [] h = ground (arith, append-nil ms)
queue_all-packed ms ((id, msg) ∷ ns) h =
    elim (Bool-cases (ltb 256 (1 + length (frames ms) + length msg + 2))) [
      | inl full ↦ let stuck = rw (buf_add-packed ms id msg, full) at h in cc
      | inr room ↦
          queue_all-packed (ms ++ ((id, msg) ∷ [])) ns (rw (buf_add-packed ms id msg, room) at h)
          ∙ ap packed (append_assoc ms ((id, msg) ∷ []) ns)
    ]

pub walk-queue_all :
    (rd : ℕ → List ℕ → Reading) (ms : List (ℕ × List ℕ)) {b : MsgBuf}
    → All (KnownBy rd) ms
    → queue_all empty_buf ms ≡ some b
    → walk_datagram rd (b.count ∷ b.body) ≡ some ms
unfolding walk_datagram
walk-queue_all rd ms {b} known h = rw (queue_all-packed [] ms {b = b} h) (walk-frames rd ms known)

pub length-c_field : (n junk : ℕ) (s : List ℕ) → length (c_field n junk s) ≡ n
unfolding c_field
length-c_field n junk s = omega (
  arith,
  length-take n (take (n - 1) s ++ (0 ∷ replicate n junk)),
  length-append (take (n - 1) s) (0 ∷ replicate n junk),
  length-replicate n junk,
)

-- The messages that the server makes for a player in a game, but for the map and the end.
pub data ToPlayer : ℕ × List ℕ → Type 0 where
  sprite :
      (v : Viewport) (obj : Object) (objid : ℕ) → ToPlayer (Msg.sprite_msg, sprite_msg v obj objid)
  removed : (objid reason : ℕ) → ToPlayer (Msg.rm_sprite_msg, objid ∷ reason ∷ [])
  viewport : (xy : MapXy) → ToPlayer (Msg.viewport, map_xy_bytes xy)
  status :
      (junk : ℕ) (text : List ℕ) → ToPlayer (Msg.message_msg, length text ∷ c_field 42 junk text)
  number : (junk numtype : ℕ) (n : ℤ) → ToPlayer (Msg.scoreboard, number_msg junk numtype n)
  direction :
      (loc : MapXy) (tank : Object) → ToPlayer (Msg.flag_alert, flag_direction loc tank ∷ [])
  no_flag : ToPlayer (Msg.flag_alert, 0xFF ∷ [])
  ping : (b : ℕ) → ToPlayer (Msg.ping_msg, b ∷ [])

ToPlayer-Known : {m : ℕ × List ℕ} → ToPlayer m → Known m
unfolding reading sprite_msg number_msg map_xy_bytes
ToPlayer-Known (sprite v obj objid) = λ rest. refl
ToPlayer-Known (removed objid reason) = λ rest. refl
ToPlayer-Known (viewport xy) = λ rest. refl
ToPlayer-Known (status junk text) =
    λ rest. ap (λ k. next (suc k)) (sym (length-c_field 42 junk text))
ToPlayer-Known (number junk numtype n) =
    λ rest. ap (λ k. next (suc k)) (sym (length-c_field 5 junk (decimal n)))
ToPlayer-Known (direction loc tank) = λ rest. refl
ToPlayer-Known no_flag = λ rest. refl
ToPlayer-Known (ping b) = λ rest. refl

All-ToPlayer : (ms : List (ℕ × List ℕ)) → All ToPlayer ms → All Known ms
All-ToPlayer [] u = tt
All-ToPlayer (m ∷ ms) (f, fs) = (ToPlayer-Known f, All-ToPlayer ms fs)

-- When the server queues sprites and their removal, positions, status lines, numbers, directions of
-- flags and pings for a player and they fit the buffer, the client reads exactly these messages
-- from the datagram, in their order, and nothing behind it.
pub read-queue_all :
    (ms : List (ℕ × List ℕ)) {b : MsgBuf}
    → All ToPlayer ms
    → queue_all empty_buf ms ≡ some b
    → read_datagram (b.count ∷ b.body) ≡ some ms
unfolding read_datagram
read-queue_all ms {b} made h = walk-queue_all reading ms {b = b} (All-ToPlayer ms made) h
