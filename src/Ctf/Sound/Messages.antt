-- ===== src/Ctf/Sound/Messages.antt =====
-- Queuing, sending and broadcasting messages keep the state well formed.
use spectranet.Base.{
  ℕ, ◌+◌, ◌%◌, ◌≤◌, ◌≡◌, refl, ap, ◌∙◌, leb, Option, none, some, List, [], ◌∷◌, ◌++◌, append_assoc,
  length, length-append, get_elem?, arith, ℤ, true, false, ltb, if◌then◌else◌, append-nil,
  Bool-cases, inl, inr,
}
use spectranet.Ctf.Types.{MapXy, SockAddr}
use spectranet.Ctf.World.{World, MsgBuf, ◌>>=◌, gets, deref, fault, pure}
use spectranet.Ctf.Buffer
use spectranet.Ctf.Keeps.{Keeps, After, Keeps-pure, Keeps-seq, keeps_rules}
use spectranet.Ctf.Sound.{IsSound, IsBuf, Slot, frames}
use spectranet.Ctf.Sound.Store.{store_rules, set_buf-Keeps, All-get}

pub frames-append : (ms ns : List (ℕ × List ℕ)) → frames (ms ++ ns) ≡ frames ms ++ frames ns
frames-append [] ns = refl
frames-append ((id, msg) ∷ ms) ns = simp (frames-append ms ns, append_assoc)

-- There are no more messages than bytes.
pub length-frames : (ms : List (ℕ × List ℕ)) → length ms ≤ length (frames ms)
length-frames [] = omega arith
length-frames ((id, msg) ∷ ms) = omega (arith, length-frames ms, length-append msg (frames ms))

frames_snoc :
    (ms : List (ℕ × List ℕ)) (id : ℕ) (msg : List ℕ)
    → frames (ms ++ ((id, msg) ∷ [])) ≡ frames ms ++ (id ∷ msg)
frames_snoc ms id msg = simp (frames-append, append-nil)

length_snoc : {A : Type 0} (xs : List A) (x : A) → length (xs ++ (x ∷ [])) ≡ length xs + 1
length_snoc xs x = omega (arith, length-append xs (x ∷ []))

-- The buffer that holds the messages.
abbrev pub packed : List (ℕ × List ℕ) → MsgBuf
packed ms = record { count = length ms; body = frames ms }

count_fits :
    (ms : List (ℕ × List ℕ)) (n : ℕ)
    → ltb 256 (1 + length (frames ms) + n + 2) ≡ false
    → (length ms + 1) % 256 ≡ length ms + 1
count_fits ms n h = let few = length-frames ms in ground arith

-- By the test of the code.
pub buf_add-packed :
    (ms : List (ℕ × List ℕ)) (id : ℕ) (msg : List ℕ)
    → Buffer.buf_add (packed ms) id msg ≡ (
        if ltb 256 (1 + length (frames ms) + length msg + 2)
        then none
        else some (packed (ms ++ ((id, msg) ∷ []))))
unfolding Buffer.buf_add
buf_add-packed ms id msg = elim (Bool-cases (ltb 256 (1 + length (frames ms) + length msg + 2))) [
  | inl full ↦ rw full
  | inr room ↦
      rw (room, frames_snoc ms id msg, length_snoc ms (id, msg), count_fits ms (length msg) room)
]

-- `addMessage` on the buffer of a client: a message that is queued joins the others as the last of
-- them, counted without wrap-around, and one is refused exactly if the count and the messages with
-- it would take more than 255 of the 256 bytes.
pub buf_add_lem :
    (ms : List (ℕ × List ℕ)) (id : ℕ) (msg : List ℕ)
    → Buffer.buf_add (packed ms) id msg ≡ (
        if leb (1 + length (frames (ms ++ ((id, msg) ∷ [])))) 255
        then some (packed (ms ++ ((id, msg) ∷ [])))
        else none)
buf_add_lem ms id msg = buf_add-packed ms id msg ∙ turned
  where
    turned :
        (if ltb 256 (1 + length (frames ms) + length msg + 2)
          then none
          else some (packed (ms ++ ((id, msg) ∷ []))))
        ≡ (if leb (1 + length (frames (ms ++ ((id, msg) ∷ [])))) 255
            then some (packed (ms ++ ((id, msg) ∷ [])))
            else none)
    turned =
        let whole = ap length (frames_snoc ms id msg) in
        let parts = length-append (frames ms) (id ∷ msg) in ground arith

snoc_fits :
    (ms : List (ℕ × List ℕ)) (id : ℕ) (msg : List ℕ)
    → ltb 256 (1 + length (frames ms) + length msg + 2) ≡ false
    → 1 + length (frames (ms ++ ((id, msg) ∷ []))) ≤ 256
snoc_fits ms id msg h =
    rw (frames_snoc ms id msg) (let total = length-append (frames ms) (id ∷ msg) in ground arith)

packed_add-IsBuf :
    (ms : List (ℕ × List ℕ)) (id : ℕ) (msg : List ℕ)
    → Slot IsBuf (Buffer.buf_add (packed ms) id msg)
packed_add-IsBuf ms id msg = elim (Bool-cases (ltb 256 (1 + length (frames ms) + length msg + 2))) [
  | inl full ↦ rw (buf_add-packed ms id msg, full) tt
  | inr room ↦
      rw (buf_add-packed ms id msg, room)
        (ms ++ ((id, msg) ∷ []), refl, refl, snoc_fits ms id msg room)
]

buf_add-IsBuf :
    (b : MsgBuf) (id : ℕ) (msg : List ℕ) → IsBuf b → Slot IsBuf (Buffer.buf_add b id msg)
buf_add-IsBuf b id msg (ms, eb, ec, fits) =
    let same : b ≡ packed ms = ground arith in rw same (packed_add-IsBuf ms id msg)

store_added-Keeps :
    (i : ℕ) (b : Option MsgBuf) → Slot IsBuf b → Keeps IsSound (Buffer.store_added i b)
unfolding Buffer.store_added
store_added-Keeps i none ok = search store_rules
store_added-Keeps i (some b) ok = Keeps-seq _ _ (set_buf-Keeps i (some b) ok) (Keeps-pure true)

add_to_slot-Keeps :
    (i id : ℕ) (msg : List ℕ) (b : Option MsgBuf)
    → Slot IsBuf b
    → Keeps IsSound (Buffer.add_to_slot i id msg b)
unfolding Buffer.add_to_slot
add_to_slot-Keeps i id msg none ok = search store_rules
add_to_slot-Keeps i id msg (some b) ok =
    store_added-Keeps i (Buffer.buf_add b id msg) (buf_add-IsBuf b id msg ok)

pub add_message-Keeps : (i id : ℕ) (msg : List ℕ) → Keeps IsSound (Buffer.add_message i id msg)
unfolding Buffer.add_message Buffer.get_buf ◌>>=◌ gets deref fault pure
add_message-Keeps i id msg = record { at = λ w h. go w h (get_elem? w.player_buf i) refl }
  where
    go :
        (w : World)
        → IsSound w
        → (o : Option (Option MsgBuf)) → get_elem? w.player_buf i ≡ o
        → After IsSound (Buffer.add_message i id msg w)
    go w h none e = rw e tt
    go w h (some b) e =
        rw e ((add_to_slot-Keeps i id msg b (All-get IsBuf w.player_buf i h.bufs e)).at w h)

pub post-Keeps : (i id : ℕ) (msg : List ℕ) → Keeps IsSound (Buffer.post i id msg)
unfolding Buffer.post
post-Keeps i id msg = search (keeps_rules, add_message-Keeps)

send_to_slot-Keeps : (a : Option SockAddr) (bs : List ℕ) → Keeps IsSound (Buffer.send_to_slot a bs)
unfolding Buffer.send_to_slot
send_to_slot-Keeps none bs = search store_rules
send_to_slot-Keeps (some a) bs = search store_rules

pub send_message_buf-Keeps : (i : ℕ) (bs : List ℕ) → Keeps IsSound (Buffer.send_message_buf i bs)
unfolding Buffer.send_message_buf
send_message_buf-Keeps i bs = search (keeps_rules, send_to_slot-Keeps)

pub empty_buf-IsBuf : IsBuf Buffer.empty_buf
empty_buf-IsBuf = ([], refl, refl, omega arith)

send_buf-Keeps : (i : ℕ) (b : MsgBuf) → Keeps IsSound (Buffer.send_buf i b)
unfolding Buffer.send_buf
send_buf-Keeps i b = search (store_rules, send_message_buf-Keeps, empty_buf-IsBuf) depth 7

send_slot-Keeps : (i : ℕ) (b : Option MsgBuf) → Keeps IsSound (Buffer.send_slot i b)
unfolding Buffer.send_slot
send_slot-Keeps i none = search keeps_rules
send_slot-Keeps i (some b) = send_buf-Keeps i b

pub send_message-Keeps : (i : ℕ) → Keeps IsSound (Buffer.send_message i)
unfolding Buffer.send_message Buffer.get_buf
send_message-Keeps i = search (keeps_rules, send_slot-Keeps)

pub send_bye_ack-Keeps : (i : ℕ) → Keeps IsSound (Buffer.send_bye_ack i)
unfolding Buffer.send_bye_ack
send_bye_ack-Keeps i = send_message_buf-Keeps i _

pub add_init_game_msg-Keeps : (i : ℕ) (xy : MapXy) → Keeps IsSound (Buffer.add_init_game_msg i xy)
unfolding Buffer.add_init_game_msg
add_init_game_msg-Keeps i xy = post-Keeps i _ _

pub add_change_viewport_msg-Keeps :
    (i : ℕ) (x y : ℤ) → Keeps IsSound (Buffer.add_change_viewport_msg i x y)
unfolding Buffer.add_change_viewport_msg
add_change_viewport_msg-Keeps i x y = post-Keeps i _ _

pub broadcast_status_msg-Keeps : (s : List ℕ) → Keeps IsSound (Buffer.broadcast_status_msg s)
unfolding Buffer.broadcast_status_msg
broadcast_status_msg-Keeps s = search (keeps_rules, post-Keeps) depth 9

post_all-Keeps : (i id : ℕ) (ms : List (List ℕ)) → Keeps IsSound (Buffer.post_all i id ms)
unfolding Buffer.post_all
post_all-Keeps i id [] = search keeps_rules
post_all-Keeps i id (m ∷ ms) = Keeps-seq _ _ (post-Keeps i id m) (post_all-Keeps i id ms)

pub broadcast_player_id_msg-Keeps : Keeps IsSound Buffer.broadcast_player_id_msg
unfolding Buffer.broadcast_player_id_msg
broadcast_player_id_msg-Keeps = search (store_rules, post_all-Keeps) depth 9

pub ruleset message_rules = (
  store_rules, add_message-Keeps, post-Keeps, send_message_buf-Keeps, send_message-Keeps,
  send_bye_ack-Keeps, add_init_game_msg-Keeps, add_change_viewport_msg-Keeps,
  broadcast_status_msg-Keeps, broadcast_player_id_msg-Keeps,
)
