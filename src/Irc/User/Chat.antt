-- ===== src/Irc/User/Chat.antt =====
-- What the client sends for a line that the user enters.
use spectranet.Base.{
  ℕ, ℤ, pos, ◌+◌, ◌-◌, ◌<◌, ◌≤◌, ◌≡◌, refl, ap, sym, ◌∙◌, subst, arith, Bool, true, false,
  Bool-cases, inl, inr, Option, some, List, ◌∷◌, ◌++◌, length, length-append, append-nil, codes,
  strlcat, same_start, ltb, ◌==◌,
}
use spectranet.Irc.Client.{name, sent, Client, act, mainprint, send_irc_msg, report_send, crlf}
use spectranet.Irc.Server.Ping.{strlcat_whole, send_irc_msg_lem}
use spectranet.Irc.Server.Talk.{channel_line}
use spectranet.Irc.User.{chat, parse_user_cmd, parse_slash_cmd}

three_texts :
    (a m : List ℕ)
    → length a + 2 + length m < 376
    → strlcat 384 (strlcat 384 (strlcat 384 (codes "PRIVMSG ") a) (codes " :")) m
      ≡ ((codes "PRIVMSG " ++ a) ++ codes " :") ++ m
three_texts a m h =
    let la = length-append (codes "PRIVMSG ") a in
    let lb = length-append (codes "PRIVMSG " ++ a) (codes " :") in
    ap (λ t. strlcat 384 (strlcat 384 t (codes " :")) m)
      (strlcat_whole 384 (codes "PRIVMSG ") a (omega arith))
    ∙ ap (λ t. strlcat 384 t m)
        (strlcat_whole 384 (codes "PRIVMSG " ++ a) (codes " :") (omega arith))
    ∙ strlcat_whole 384 ((codes "PRIVMSG " ++ a) ++ codes " :") m (omega arith)

abbrev goes_on : Client → Option (Bool × Client)
goes_on st = some (true, st)

-- What is shown and sent for a line to a channel.
abbrev said : List ℕ → List ℕ → Client → Client
said chan m st = mainprint m (act (name st.nick 2) (act (sent (channel_line chan m)) st))

abbrev echoed : List ℕ → Client → Client
echoed m told = mainprint m (act (name told.nick 2) told)

chat_inside :
    (send : List ℕ → ℤ) (m : List ℕ) (c : ℕ) (chan : List ℕ) (st : Client) (n : ℕ)
    → length m < 256
    → length (c ∷ chan) < 32
    → send (channel_line (c ∷ chan) m) ≡ pos n
    → chat send m (record st { chan = c ∷ chan })
      ≡ said (c ∷ chan) m (record st { chan = c ∷ chan })
unfolding chat act
chat_inside send m c chan st n short room ok =
    let s : Client = record st { chan = c ∷ chan } in
    let text = ((codes "PRIVMSG " ++ (c ∷ chan)) ++ codes " :") ++ m in
    let la = length-append (codes "PRIVMSG ") (c ∷ chan) in
    let lb = length-append (codes "PRIVMSG " ++ (c ∷ chan)) (codes " :") in
    let lc = length-append ((codes "PRIVMSG " ++ (c ∷ chan)) ++ codes " :") m in
    ap (λ t. echoed m (send_irc_msg send t 384 s)) (three_texts (c ∷ chan) m (omega arith))
    ∙ ap (echoed m) (send_irc_msg_lem send text 384 n s (omega arith) ok)

-- A line that does not start with '/' goes to the channel whole, as one message with its end, and is
-- shown under the user's nick, where the client is in a channel, its name and the line fit their
-- buffers of 32 and 256 bytes, and the send succeeds; the client goes on.
pub parse_user_cmd-chat :
    (send : List ℕ → ℤ) (k : ℕ) (cmd : List ℕ) (c : ℕ) (chan : List ℕ) (st : Client) (n : ℕ)
    → (k == 47) ≡ false
    → length (k ∷ cmd) < 256
    → st.chan ≡ c ∷ chan
    → length (c ∷ chan) < 32
    → send (channel_line (c ∷ chan) (k ∷ cmd)) ≡ pos n
    → parse_user_cmd send (k ∷ cmd) st
      ≡ some (
        true,
        mainprint
            (k ∷ cmd)
            (act (name st.nick 2) (act (sent (channel_line (c ∷ chan) (k ∷ cmd))) st)),
      )
unfolding parse_user_cmd chat act
parse_user_cmd-chat send k cmd c chan st n slash short inside room ok =
    rw (parse_user_cmd, slash)
      (subst
        (λ ch.
          goes_on (chat send (k ∷ cmd) (record st { chan = ch }))
          ≡ goes_on (said (c ∷ chan) (k ∷ cmd) (record st { chan = ch })))
        (sym inside) (ap goes_on (chat_inside send (k ∷ cmd) c chan st n short room ok)))

strlcat_full : (size : ℕ) (a b : List ℕ) → size ≤ length a + 1 → strlcat size a b ≡ a
unfolding strlcat
strlcat_full size a b h = elim (Bool-cases (ltb (length a) size)) [
  | inl e ↦
      let none_left : size - length a - 1 ≡ 0 = omega arith in rw (e, none_left) (append-nil a)
  | inr e ↦ rw e refl
]

-- Where the command after a '/' fills the space of 254 bytes, it is sent without the end of a line:
-- so it goes for each of 253 bytes or more that is none of `quit`, `me` and `msg`.
pub parse_user_cmd-cut :
    (send : List ℕ → ℤ) (cmd : List ℕ) (st : Client) (n : ℕ)
    → 253 ≤ length cmd
    → same_start 4 cmd (codes "quit") ≡ false
    → same_start 2 cmd (codes "me") ≡ false
    → same_start 3 cmd (codes "msg") ≡ false
    → send cmd ≡ pos n
    → parse_user_cmd send (47 ∷ cmd) st ≡ some (true, act (sent cmd) st)
unfolding parse_user_cmd parse_slash_cmd send_irc_msg
parse_user_cmd-cut send cmd st n long quit me msg ok =
    rw (parse_user_cmd, parse_slash_cmd, quit, me, msg)
      (ap (λ t. goes_on (report_send (send t) (act (sent t) st)))
          (strlcat_full 254 cmd crlf (omega arith))
        ∙ ap (λ r. goes_on (report_send r (act (sent cmd) st))) ok)
