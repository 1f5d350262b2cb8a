-- ===== src/Irc/Server/Ping.antt =====
-- What the client makes of one message, and of a PING.
use spectranet.Base.{
  ℕ, ℤ, pos, ◌+◌, ◌-◌, ◌<◌, ◌≡◌, refl, ap, sym, ◌∙◌, arith, true, Option, some, List, [], ◌∷◌, ◌++◌,
  length, length-append, take_whole, append-nil, Lacks, lacks, lacks-Lacks, Lacks-append, codes,
  strlcat, ltb,
}
use Prim.{tt}
use spectranet.Irc.Client.{sent, Client, act, ◌>>=◌, send_irc_msg, report_send, crlf, strtok}
use spectranet.Irc.Server.{
  IrcMsg, IrcCmd, split_msg, split_cmd, chomp, before_cr, extract_irc_messages, parse_irc_message,
  parse_all, parse_server_cmd, received,
}
use spectranet.Irc.Server.Lines.{extract_irc_messages-with_ends, strtok_lem}

pub strlcat_whole :
    (size : ℕ) (a b : List ℕ) → length a + length b < size → strlcat size a b ≡ a ++ b
unfolding strlcat
strlcat_whole size a b h =
    let room : ltb (length a) size ≡ true = ground arith in
    rw room (ap (λ s. a ++ s) (take_whole (size - length a - 1) b (omega arith)))

pub send_irc_msg_lem :
    (send : List ℕ → ℤ) (msg : List ℕ) (bufsz n : ℕ) (c : Client)
    → length msg + 2 < bufsz
    → send (msg ++ crlf) ≡ pos n
    → send_irc_msg send msg bufsz c ≡ act (sent (msg ++ crlf)) c
unfolding send_irc_msg
send_irc_msg_lem send msg bufsz n c h ok =
    ap (λ t. report_send (send t) (act (sent t) c)) (strlcat_whole bufsz msg crlf h)
    ∙ ap (λ r. report_send r (act (sent (msg ++ crlf)) c)) ok

pub one_message :
    (send : List ℕ → ℤ) (s : List ℕ) (c : Client)
    → Lacks 0 s
    → Lacks 10 s
    → received send (s ++ (10 ∷ [])) c ≡ parse_all send (s ∷ []) c
unfolding received
one_message send s c z n =
    ap (λ ls. parse_all send ls c)
      (ap extract_irc_messages (sym (append-nil (s ++ (10 ∷ []))))
        ∙ extract_irc_messages-with_ends (s ∷ []) [] (z, n, tt) tt)

abbrev pub ping : List ℕ → List ℕ
ping p = codes "PING " ++ (p ++ (13 ∷ []))

-- What `strtok` hands over, and the messages that are made of it.
abbrev Tokens : Type 0
Tokens = Option (List ℕ) × List ℕ

abbrev cmd_of : Tokens → Tokens → IrcCmd
cmd_of a b = record { command = a.0; param = b.0 }

split_cmd_lem :
    (s a b rest more : List ℕ)
    → strtok 32 s ≡ (some a, rest)
    → strtok 13 rest ≡ (some b, more)
    → split_cmd s ≡ record { command = some a; param = some b }
unfolding split_cmd
split_cmd_lem s a b rest more e f =
    ap (λ t. cmd_of t (strtok 13 t.1)) e ∙ ap (λ t. cmd_of (some a, rest) t) f

abbrev msg_of : Tokens → Tokens → Tokens → Tokens → IrcMsg
msg_of a b c d = record { prefix = a.0; command = b.0; param = chomp c.0; msg = d.0 }

pub split_msg_lem :
    (s a b p m rest rest1 rest2 rest3 : List ℕ)
    → strtok 32 s ≡ (some a, rest)
    → strtok 32 rest ≡ (some b, rest1)
    → strtok 32 rest1 ≡ (some p, rest2)
    → strtok 13 rest2 ≡ (some m, rest3)
    → before_cr p ≡ p
    → split_msg s ≡ record { prefix = some a; command = some b; param = some p; msg = some m }
unfolding split_msg chomp
split_msg_lem s a b p m rest rest1 rest2 rest3 e f g h k =
    let t : Tokens = (some a, rest) in
    let u : Tokens = (some b, rest1) in
    let v : Tokens = (some p, rest2) in
    ap
      (λ x.
        msg_of x (strtok 32 x.1) (strtok 32 (strtok 32 x.1).1)
          (strtok 13 (strtok 32 (strtok 32 x.1).1).1))
      e
    ∙ ap (λ x. msg_of t x (strtok 32 x.1) (strtok 13 (strtok 32 x.1).1)) f
    ∙ ap (λ x. msg_of t u x (strtok 13 x.1)) g
    ∙ ap (λ x. msg_of t u v x) h
    ∙ ap (λ q. record { prefix = some a; command = some b; param = some q; msg = some m }) k

ping-split :
    (c : ℕ) (w : List ℕ)
    → Lacks 13 (c ∷ w)
    → split_cmd (ping (c ∷ w)) ≡ record { command = some (codes "PING"); param = some (c ∷ w) }
unfolding lacks
ping-split c w r =
    split_cmd_lem (ping (c ∷ w)) (codes "PING") (c ∷ w) ((c ∷ w) ++ (13 ∷ [])) []
      (strtok_lem 32 80 (codes "ING") ((c ∷ w) ++ (13 ∷ [])) (lacks-Lacks 32 (codes "PING") refl))
      (strtok_lem 13 c w [] r)

-- A PING is answered: the server's line `PING p` with its end, `p` not empty and of at most 119
-- bytes, all but 0 and the ends of lines, sends `PONG p` with its end, if the send succeeds, and does
-- nothing else.
pub received-ping :
    (send : List ℕ → ℤ) (c : ℕ) (w : List ℕ) (n : ℕ) (st : Client)
    → Lacks 0 (c ∷ w)
    → Lacks 10 (c ∷ w)
    → Lacks 13 (c ∷ w)
    → length (c ∷ w) < 120
    → send ((codes "PONG " ++ (c ∷ w)) ++ crlf) ≡ pos n
    → received send (ping (c ∷ w) ++ (10 ∷ [])) st
      ≡ some (act (sent ((codes "PONG " ++ (c ∷ w)) ++ crlf)) st)
unfolding parse_all parse_irc_message parse_server_cmd lacks
received-ping send c w n st z nl cr short ok =
    one_message send (ping (c ∷ w)) st
      (Lacks-append 0 (codes "PING ") ((c ∷ w) ++ (13 ∷ [])) (lacks-Lacks 0 (codes "PING ") refl)
        (Lacks-append 0 (c ∷ w) (13 ∷ []) z (refl, tt)))
      (Lacks-append 10 (codes "PING ") ((c ∷ w) ++ (13 ∷ [])) (lacks-Lacks 10 (codes "PING ") refl)
        (Lacks-append 10 (c ∷ w) (13 ∷ []) nl (refl, tt)))
    ∙ ap (λ ic. parse_server_cmd send ic st >>= parse_all send []) (ping-split c w cr)
    ∙ ap some (
        ap (λ t. send_irc_msg send t 128 st)
          (strlcat_whole 128 (codes "PONG ") (c ∷ w) (omega arith))
        ∙ send_irc_msg_lem send (codes "PONG " ++ (c ∷ w)) 128 n st
            (omega (arith, length-append (codes "PONG ") (c ∷ w))) ok)
