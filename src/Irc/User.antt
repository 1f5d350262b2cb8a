-- ===== src/Irc/User.antt =====
-- What the user enters: examples/irc/usercmd.c. `none` is a read of a NULL pointer, `false` the wish
-- to quit.
pub mod Chat
use spectranet.Base.{
  ℕ, ℤ, pos, Bool, true, false, Option, none, some, List, [], ◌∷◌, ◌++◌, drop, codes, strlcat,
  strlcpy, same_start, ltb, if◌then◌else◌, ◌==◌,
}
use spectranet.Irc.Client.{
  Act, name, colour, Client, act, ◌>>=◌, mainprint, remove_unprintables, send_irc_msg, strtok,
}
use spectranet.Irc.Server.{is_empty, char_at, black_ink}

-- `outbuf` is 384 bytes.
abbrev append : List ℕ → List ℕ → List ℕ
append s t = strlcat 384 s t

abbrev red_ink : List ℕ
red_ink = 16 ∷ 50 ∷ []

abbrev magenta_ink : List ℕ
magenta_ink = 16 ∷ 51 ∷ []

abbrev action_text : List ℕ
action_text = codes " :" ++ (1 ∷ codes "ACTION ")

unfoldable pub slash_me : (List ℕ → ℤ) → List ℕ → Client → Client
unfolding act mainprint send_irc_msg
slash_me send cmd c =
    if is_empty c.chan
    then mainprint (codes "You are not in a channel.") c
    else (let head = append (append (strlcpy (pos 384) (codes "PRIVMSG ")) c.chan) action_text in
        let text = append (append head (drop 3 cmd)) (1 ∷ []) in
        let told = act (colour red_ink) (send_irc_msg send text 382 c) in
        act (colour black_ink) (mainprint (append (strlcpy (pos 384) told.nick) (drop 2 cmd)) told))

-- The message is shown before it is sent, so that it is sent as it was shown.
unfoldable pub slash_msg : (List ℕ → ℤ) → List ℕ → Client → Option Client
unfolding act mainprint remove_unprintables send_irc_msg strtok
slash_msg send cmd c = do
  let first = strtok 32 (drop 4 cmd)
  param1 ← first.0
  param2 ← (strtok 10 first.1).0
  let text = append (append (append (codes "PRIVMSG ") param1) (codes " :")) param2
  let told = act (colour black_ink) (mainprint text (act (colour magenta_ink) c))
  some (send_irc_msg send (remove_unprintables text) 382 told)

abbrev go_on : Option Client → Option (Bool × Client)
go_on none = none
go_on (some c) = some (true, c)

unfoldable pub parse_slash_cmd : (List ℕ → ℤ) → List ℕ → Client → Option (Bool × Client)
unfolding slash_me slash_msg send_irc_msg same_start
parse_slash_cmd send cmd c =
    if same_start 4 cmd (codes "quit")
    then some (false, c)
    else if same_start 2 cmd (codes "me")
    then some (true, slash_me send cmd c)
    else if same_start 3 cmd (codes "msg")
    then go_on (slash_msg send cmd c)
    else some (true, send_irc_msg send cmd 254 c)

-- A line without a slash goes to the channel.
unfoldable pub chat : (List ℕ → ℤ) → List ℕ → Client → Client
unfolding act mainprint send_irc_msg
chat send cmd c =
    if is_empty c.chan
    then mainprint (codes "*** You're not in a channel!") c
    else (let text = append (append (append (codes "PRIVMSG ") c.chan) (codes " :")) cmd in
        let told = send_irc_msg send text 384 c in mainprint cmd (act (name told.nick 2) told))

unfoldable pub parse_user_cmd : (List ℕ → ℤ) → List ℕ → Client → Option (Bool × Client)
unfolding parse_slash_cmd chat
parse_user_cmd send cmd c =
    if is_empty cmd
    then some (true, c)
    else if char_at cmd 0 == 47
    then parse_slash_cmd send (drop 1 cmd) c
    else some (true, chat send cmd c)
