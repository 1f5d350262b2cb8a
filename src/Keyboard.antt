-- ===== src/Keyboard.antt =====
-- The keyboard buffer that the IRC client and the client of the game share: isr and the head of
-- checkKey in examples/irc/inputline.c; examples/ctfgame/client/mminput.c has the same code with
-- another KBUFSZ. A key that the interrupt finds and a look of the main thread are the two steps.
pub mod Queue
pub mod Edit
mod Tests
use spectranet.Base.{
  ℕ, ◌+◌, Option, none, some, List, [], ◌∷◌, get_elem?, set, replicate, if◌then◌else◌, ◌==◌,
}

-- `kbuf`, `bufoffset` and `readoffset`.
pub record Ring : Type 0 where
  pub kbuf : List ℕ
  pub bufoffset : ℕ
  pub readoffset : ℕ

unfoldable pub inputinit : ℕ → Ring
inputinit size = record { kbuf = replicate size 0; bufoffset = 0; readoffset = 0 }

-- The step of an offset in a buffer of `size` bytes.
abbrev pub next : ℕ → ℕ → ℕ
next size i = if i + 1 == size then 0 else i + 1

-- `isr`, for the key that `in_GetKey` reports: 0 for none.
unfoldable pub isr : ℕ → ℕ → Ring → Ring
isr size k r =
    if k == 0
    then r
    else record r { kbuf = set r.kbuf r.bufoffset k; bufoffset = next size r.bufoffset }

-- What the head of `checkKey` comes to; `outside` is a read outside of the buffer.
pub data Pick : Type 0 where
  idle outside : Pick
  picked : ℕ → Ring → Pick

abbrev pub read_at : ℕ → Ring → Option ℕ → Pick
read_at size r none = outside
read_at size r (some k) = picked k (record r { readoffset = next size r.readoffset })

unfoldable pub pick : ℕ → Ring → Pick
pick size r =
    if r.readoffset == r.bufoffset then idle else read_at size r (get_elem? r.kbuf r.readoffset)

-- The two things that happen to the buffer: the interrupt, and a look of `checkKey`.
pub data KeyEvent : Type 0 where
  pressed : ℕ → KeyEvent
  looked : KeyEvent

abbrev pub hand_out : ℕ → Option (List ℕ) → Option (List ℕ)
hand_out k none = none
hand_out k (some ks) = some (k ∷ ks)

-- What a look at the buffer comes to, and the keys of the looks after it.
abbrev pub after : Ring → (Ring → Option (List ℕ)) → Pick → Option (List ℕ)
after r later idle = later r
after r later outside = none
after r later (picked k r') = hand_out k (later r')

-- The keys that `checkKey` hands to `handleKey` in a sequence of events, if it never reads outside.
unfoldable pub keys_read : ℕ → List KeyEvent → Ring → Option (List ℕ)
unfolding isr pick
keys_read size [] r = some []
keys_read size (pressed k ∷ es) r = keys_read size es (isr size k r)
keys_read size (looked ∷ es) r = after r (λ r'. keys_read size es r') (pick size r)
