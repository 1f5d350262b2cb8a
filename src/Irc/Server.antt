-- ===== src/Irc/Server.antt =====
-- Messages from the server: extractIrcMessages of examples/irc/irc.c, and examples/irc/ircsvrmsg.c.

pub mod Lines
pub mod Ping
pub mod Talk
use spectranet.Base.{
  ℕ, ℤ, pos, Bool, true, false, ◌||◌, not, Option, none, some, List, [], ◌∷◌, ◌++◌, length, drop,
  codes, strlcat, strlcpy, same_text, same_start, ltb, leb, ◌&&◌, if◌then◌else◌, ◌==◌, get_elem?,
}
use spectranet.Irc.Client.{
  Act, line, name, colour, Client, act, ◌>>=◌, mainprint, set_status_line, send_irc_msg, strtok,
}

-- The lines of what was received, up to a 0 byte; `msg` is the start of the current line.
unfoldable pub extract_from : List ℕ → List ℕ → List (List ℕ)
extract_from msg [] = []
extract_from msg (c ∷ cs) = elim (c == 0) [
  | true ↦ []
  | false ↦ elim (c == 10) [
    | true ↦ msg ∷ extract_from [] cs
    | false ↦ extract_from (msg ++ (c ∷ [])) cs
  ]
]

unfoldable pub extract_irc_messages : List ℕ → List (List ℕ)
unfolding extract_from
extract_irc_messages buf = extract_from [] buf

-- `struct ircmsg` and `struct irccmd`, with `none` for NULL.
pub record IrcMsg : Type 0 where
  pub prefix : Option (List ℕ)
  pub command : Option (List ℕ)
  pub param : Option (List ℕ)
  pub msg : Option (List ℕ)

pub record IrcCmd : Type 0 where
  pub command : Option (List ℕ)
  pub param : Option (List ℕ)

-- The text before the first carriage return.
unfoldable pub before_cr : List ℕ → List ℕ
before_cr [] = []
before_cr (c ∷ cs) = let rest = before_cr cs in if c == 13 then [] else c ∷ rest

unfoldable pub chomp : Option (List ℕ) → Option (List ℕ)
unfolding before_cr
chomp none = none
chomp (some s) = some (before_cr s)

abbrev pub is_empty : List ℕ → Bool
is_empty [] = true
is_empty (c ∷ cs) = false

-- The character at a place of a text, with the 0 that ends it.
abbrev pub char_at : List ℕ → ℕ → ℕ
char_at [] i = 0
char_at (c ∷ cs) ℕ.zero = c
char_at (c ∷ cs) (ℕ.suc i) = char_at cs i

-- The text of a message without its colon, if it is longer than 2.
unfoldable pub print_msg : Option (List ℕ) → Client → Client
unfolding mainprint
print_msg none c = c
print_msg (some s) c = if ltb 2 (length s) then mainprint (drop 1 s) c else c

unfoldable pub parse_num_response : IrcMsg → Client → Option Client
unfolding print_msg set_status_line
parse_num_response im c = do
  named ←
      if is_empty c.nick
      then (do p ← im.param; some (set_status_line (record c { nick = strlcpy (pos 24) p })))
      else some c
  some (print_msg im.msg named)

-- The colours of `parseCtcp`, and the sender's nick in front of a PRIVMSG: NICKTYPE_THEIRS and
-- NICKTYPE_PM.
abbrev pub blue_ink : List ℕ
blue_ink = 16 ∷ 49 ∷ []

abbrev pub black_ink : List ℕ
black_ink = 16 ∷ 48 ∷ []

abbrev version_text : List ℕ
version_text =
    codes " :" ++ (1 ∷ (codes "VERSION ZX-IRC (Sinclair ZX Spectrum, 3.5MHz)" ++ (1 ∷ [])))

unfoldable pub ctcp_version : (List ℕ → ℤ) → List ℕ → Client → Client
unfolding send_irc_msg mainprint
ctcp_version send req c =
    let told = mainprint (strlcat 128 (codes "Received CTCP VERSION request from ") req) c in
    send_irc_msg send (strlcat 128 (strlcat 128 (codes "NOTICE ") req) version_text) 128 told

unfoldable pub ctcp_action : List ℕ → List ℕ → Client → Client
unfolding act mainprint
ctcp_action req ctcpmsg c =
    act (colour black_ink)
      (mainprint (strlcat 128 (strlcpy (pos 128) req) (drop 6 ctcpmsg)) (act (colour blue_ink) c))

unfoldable pub ctcp_unknown : List ℕ → List ℕ → Client → Client
unfolding mainprint
ctcp_unknown req ctcpmsg c =
    mainprint
      (strlcat 128
        (strlcat 128 (strlcat 128 (codes "Unknown CTCP command: ") ctcpmsg) (codes " from ")) req)
      c

unfoldable pub parse_ctcp : (List ℕ → ℤ) → IrcMsg → Client → Option Client
unfolding ctcp_version ctcp_action ctcp_unknown strtok same_text same_start
parse_ctcp send im c = do
  prefix ← im.prefix
  msg ← im.msg
  req ← (strtok 33 prefix).0
  ctcpmsg ← (strtok 1 (drop 2 msg)).0
  some (
      if same_text ctcpmsg (codes "VERSION")
      then ctcp_version send req c
      else if same_start 6 ctcpmsg (codes "ACTION")
      then ctcp_action req ctcpmsg c
      else ctcp_unknown req ctcpmsg c)

unfoldable pub privmsg : (List ℕ → ℤ) → IrcMsg → List ℕ → Client → Option Client
unfolding parse_ctcp strtok same_start act mainprint
privmsg send im param c = do
  msg ← im.msg
  let nicktype = if same_start 24 c.nick param then 3 else 1
  (if char_at msg 1 == 1 then parse_ctcp send im c else (do
    prefix ← im.prefix
    str ← (strtok 33 prefix).0
    some (mainprint (drop 1 msg) (act (name str nicktype) c))))

unfoldable pub parse_other_response : (List ℕ → ℤ) → IrcMsg → List ℕ → Client → Option Client
unfolding privmsg print_msg set_status_line same_text
parse_other_response send im command c = elim im.param [
  | none ↦ some c
  | some param ↦
      if same_text command (codes "PRIVMSG")
      then privmsg send im param c
      else if same_text command (codes "JOIN")
      then some (set_status_line (record c { chan = strlcpy (pos 32) (drop 1 param) }))
      else some (print_msg im.msg c)
]

abbrev print_param : Option (List ℕ) → Client → Client
print_param none c = c
print_param (some p) c = mainprint p c

unfoldable pub parse_server_cmd : (List ℕ → ℤ) → IrcCmd → Client → Option Client
unfolding send_irc_msg mainprint same_text
parse_server_cmd send ic c = elim ic.command [
  | none ↦ some c
  | some command ↦
      if same_text command (codes "PING")
      then (do param ← ic.param; some (send_irc_msg send (strlcat 128 (codes "PONG ") param) 128 c))
      else some (print_param ic.param (mainprint command c))
]

-- The parts of a message that starts with ':'.
unfoldable pub split_msg : List ℕ → IrcMsg
unfolding strtok chomp
split_msg s =
    let prefix = strtok 32 s in
    let command = strtok 32 prefix.1 in
    let param = strtok 32 command.1 in
    let msg = strtok 13 param.1 in
    record { prefix = prefix.0; command = command.0; param = chomp param.0; msg = msg.0 }

unfoldable pub split_cmd : List ℕ → IrcCmd
unfolding strtok
split_cmd s =
    let command = strtok 32 s in
    let param = strtok 13 command.1 in record { command = command.0; param = param.0 }

-- A response by its number, or another one.
unfoldable pub parse_split : (List ℕ → ℤ) → IrcMsg → Client → Option Client
unfolding parse_num_response parse_other_response
parse_split send im c = do
  command ← im.command
  (if leb 48 (char_at command 0) && leb (char_at command 0) 57
      then parse_num_response im c
      else parse_other_response send im command c)

unfoldable pub parse_irc_message : (List ℕ → ℤ) → List ℕ → Client → Option Client
unfolding split_msg split_cmd parse_split parse_server_cmd
parse_irc_message send s c =
    if char_at s 0 == 58
    then parse_split send (split_msg (drop 1 s)) c
    else parse_server_cmd send (split_cmd s) c

-- The messages of one read, one after the other.
unfoldable pub parse_all : (List ℕ → ℤ) → List (List ℕ) → Client → Option Client
unfolding parse_irc_message
parse_all send [] c = some c
parse_all send (s ∷ ss) c = parse_irc_message send s c >>= parse_all send ss

unfoldable pub received : (List ℕ → ℤ) → List ℕ → Client → Option Client
unfolding extract_irc_messages parse_all
received send buf c = parse_all send (extract_irc_messages buf) c
