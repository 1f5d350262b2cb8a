-- ===== src/Irc/Client.antt =====
-- What the parts of the IRC client share: the globals of examples/irc/irc.c, the output calls of
-- output.c and statusline.c, sendIrcMsg, and `strtok`.
use spectranet.Base.{
  ℕ, ℤ, pos, negsuc, ◌||◌, Option, none, some, List, [], ◌∷◌, ◌++◌, codes, strlcat, ltb,
  if◌then◌else◌, ◌==◌,
}

-- What goes to the screen or to the server: `mainprint`, `nickprint`, `printk` of a colour,
-- `setStatusLine` and `send`.
pub data Act : Type 0 where
  line : List ℕ → Act
  name : List ℕ → ℕ → Act
  colour : List ℕ → Act
  status : List ℕ → List ℕ → Act
  sent : List ℕ → Act

pub record Client : Type 0 where
  pub nick : List ℕ
  pub chan : List ℕ
  pub done : List Act

unfoldable pub act : Act → Client → Client
act a c = record c { done = c.done ++ (a ∷ []) }

-- `none` is a read of a NULL pointer.
infixl 5 ◌>>=◌
abbrev pub ◌>>=◌ : {A B : Type 0} → Option A → (A → Option B) → Option B
none >>= f = none
some a >>= f = f a

-- `removeUnprintables`: a '?' for each.
unfoldable pub remove_unprintables : List ℕ → List ℕ
remove_unprintables [] = []
remove_unprintables (c ∷ cs) =
    let rest = remove_unprintables cs in (if ltb c 32 || ltb 127 c then 63 else c) ∷ rest

unfoldable pub mainprint : List ℕ → Client → Client
unfolding act remove_unprintables
mainprint s c = act (line (remove_unprintables s)) c

-- `setStatusLine` shows the globals, whatever it is given.
unfoldable pub set_status_line : Client → Client
unfolding act
set_status_line c = act (status c.nick c.chan) c

-- The end of a message.
abbrev pub crlf : List ℕ
crlf = 13 ∷ 10 ∷ []

abbrev pub report_send : ℤ → Client → Client
unfolding mainprint
report_send (pos n) c = c
report_send (negsuc n) c = mainprint (codes "*** ERROR: send() failed!") c

-- `sendIrcMsg`, where `send` answers with its result.
unfoldable pub send_irc_msg : (List ℕ → ℤ) → List ℕ → ℕ → Client → Client
unfolding act mainprint
send_irc_msg send msg bufsz c =
    let text = strlcat bufsz msg crlf in report_send (send text) (act (sent text) c)

-- `strtok` on the text that is left, for one delimiter: the token, and the text behind the delimiter
-- that ends it.
unfoldable pub skip_delims : ℕ → List ℕ → List ℕ
skip_delims d [] = []
skip_delims d (c ∷ cs) = let rest = skip_delims d cs in if c == d then rest else c ∷ cs

unfoldable pub token : ℕ → List ℕ → List ℕ × List ℕ
token d [] = ([], [])
token d (c ∷ cs) = let rest = token d cs in if c == d then ([], cs) else (c ∷ rest.0, rest.1)

abbrev pub found : List ℕ × List ℕ → Option (List ℕ)
found ([], rest) = none
found (c ∷ cs, rest) = some (c ∷ cs)

unfoldable pub strtok : ℕ → List ℕ → Option (List ℕ) × List ℕ
unfolding skip_delims token
strtok d s = let t = token d (skip_delims d s) in (found t, t.1)
