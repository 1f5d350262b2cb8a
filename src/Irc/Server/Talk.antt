-- ===== src/Irc/Server/Talk.antt =====
-- What the client makes of a message that another client sends to a channel.
use spectranet.Base.{
  ℕ, ℤ, ◌≡◌, refl, ap, sym, ◌∙◌, false, some, List, [], ◌∷◌, ◌++◌, append_assoc, Lacks, lacks,
  lacks-Lacks, Lacks-append, codes, same_start, same_text, ◌==◌,
}
use Prim.{tt}
use spectranet.Irc.Client.{name, Client, act, ◌>>=◌, mainprint, crlf, strtok}
use spectranet.Irc.Server.{
  split_msg, parse_irc_message, parse_all, parse_other_response, privmsg, received, parse_split,
  char_at,
}
use spectranet.Irc.Server.Lines.{strtok_lem, before_cr_lem}
use spectranet.Irc.Server.Ping.{one_message, split_msg_lem}

-- The line that a client sends to a channel.
abbrev pub channel_line : List ℕ → List ℕ → List ℕ
channel_line chan text = (((codes "PRIVMSG " ++ chan) ++ codes " :") ++ text) ++ crlf

-- That line as the server passes it on from a user, without its end.
abbrev message : List ℕ → List ℕ → List ℕ
message chan text = codes "PRIVMSG" ++ (32 ∷ (chan ++ (32 ∷ ((58 ∷ text) ++ (13 ∷ [])))))

-- The line that the server makes of one that a user sent.
abbrev pub relayed : List ℕ → List ℕ → List ℕ → List ℕ
relayed nick host l = 58 ∷ ((nick ++ (33 ∷ host)) ++ (32 ∷ l))

message_lem : (chan text : List ℕ) → channel_line chan text ≡ message chan text ++ (10 ∷ [])
message_lem chan text =
    append_assoc ((codes "PRIVMSG " ++ chan) ++ codes " :") text crlf
    ∙ append_assoc (codes "PRIVMSG " ++ chan) (codes " :") (text ++ crlf)
    ∙ append_assoc (codes "PRIVMSG ") chan (codes " :" ++ (text ++ crlf))
    ∙ ap (λ t. codes "PRIVMSG " ++ t)
        (ap (λ t. chan ++ (codes " :" ++ t)) (sym (append_assoc text (13 ∷ []) (10 ∷ [])))
          ∙ sym (append_assoc chan (codes " :" ++ (text ++ (13 ∷ []))) (10 ∷ [])))

-- A text that may stand in a message.
pub record IsText (s : List ℕ) : Type 0 where
  pub no_nul : Lacks 0 s
  pub no_newline : Lacks 10 s
  pub no_return : Lacks 13 s

Lacks-message :
    (x : ℕ) (chan text : List ℕ)
    → Lacks x (codes "PRIVMSG ")
    → Lacks x (codes " :")
    → (x == 13) ≡ false
    → Lacks x chan
    → Lacks x text
    → Lacks x (message chan text)
Lacks-message x chan text l m r c t =
    let tail = Lacks-append x text (13 ∷ []) t (r, tt) in
    let told = Lacks-append x (codes " :") (text ++ (13 ∷ [])) m tail in
    Lacks-append x (codes "PRIVMSG ") (chan ++ (codes " :" ++ (text ++ (13 ∷ [])))) l
      (Lacks-append x chan (codes " :" ++ (text ++ (13 ∷ []))) c told)

relayed-split :
    (n : ℕ) (nick host : List ℕ) (c : ℕ) (chan text : List ℕ)
    → Lacks 32 (n ∷ nick)
    → Lacks 32 host
    → Lacks 32 (c ∷ chan)
    → Lacks 13 (c ∷ chan)
    → Lacks 13 text
    → split_msg (((n ∷ nick) ++ (33 ∷ host)) ++ (32 ∷ message (c ∷ chan) text)) ≡ record {
      prefix = some ((n ∷ nick) ++ (33 ∷ host));
      command = some (codes "PRIVMSG");
      param = some (c ∷ chan);
      msg = some (58 ∷ text);
    }
unfolding lacks
relayed-split n nick host c chan text sn sh sc rc rt =
    let l1 = (c ∷ chan) ++ (32 ∷ ((58 ∷ text) ++ (13 ∷ []))) in
    split_msg_lem _ _ (codes "PRIVMSG") (c ∷ chan) (58 ∷ text) (message (c ∷ chan) text) l1
      ((58 ∷ text) ++ (13 ∷ [])) []
      (strtok_lem 32 n (nick ++ (33 ∷ host)) (message (c ∷ chan) text)
        (Lacks-append 32 (n ∷ nick) (33 ∷ host) sn (refl, sh)))
      (strtok_lem 32 80 (codes "RIVMSG") l1 (lacks-Lacks 32 (codes "PRIVMSG") refl))
      (strtok_lem 32 c chan ((58 ∷ text) ++ (13 ∷ [])) sc) (strtok_lem 13 58 text [] (refl, rt))
      (before_cr_lem (c ∷ chan) rc)

-- The relayed message, without its end, lacks a byte that its parts lack.
Lacks-relayed :
    (x : ℕ) (user host m : List ℕ)
    → Lacks x (codes ": !")
    → Lacks x user
    → Lacks x host
    → Lacks x m
    → Lacks x (relayed user host m)
Lacks-relayed x user host m k u h l = (
  k.0,
  Lacks-append x (user ++ (33 ∷ host)) (32 ∷ m) (Lacks-append x user (33 ∷ host) u (k.1.1.0, h))
      (k.1.0, l),
)

relayed-end :
    (nick host m : List ℕ) → relayed nick host (m ++ (10 ∷ [])) ≡ relayed nick host m ++ (10 ∷ [])
relayed-end nick host m =
    ap (λ t. 58 ∷ t) (sym (append_assoc (nick ++ (33 ∷ host)) (32 ∷ m) (10 ∷ [])))

-- The nick in front of the '!'.
nick-token :
    (n : ℕ) (nick host : List ℕ)
    → Lacks 33 (n ∷ nick)
    → (strtok 33 ((n ∷ nick) ++ (33 ∷ host))).0 ≡ some (n ∷ nick)
nick-token n nick host l = ap (λ t. t.0) (strtok_lem 33 n nick host l)

-- A privmsg that is no CTCP request and goes to another name than the client's.
privmsg_lem :
    (send : List ℕ → ℤ) (n : ℕ) (nick host chan text : List ℕ) (st : Client)
    → Lacks 33 (n ∷ nick)
    → (char_at text 0 == 1) ≡ false
    → same_start 24 st.nick chan ≡ false
    → privmsg send
        (record {
          prefix = some ((n ∷ nick) ++ (33 ∷ host));
          command = some (codes "PRIVMSG");
          param = some chan;
          msg = some (58 ∷ text);
        })
        chan
        st
      ≡ some (mainprint text (act (name (n ∷ nick) 1) st))
unfolding privmsg
privmsg_lem send n nick host chan text st l ctcp other =
    rw (privmsg, ctcp, other, nick-token n nick host l) refl

-- What one client says in a channel another one shows: where the server passes on the line
-- `PRIVMSG chan :text` of a user, the receiver prints the user's nick and the text, and does nothing
-- else, unless the text starts with byte 1 or the channel agrees with the receiver's own nick in its
-- first 24 characters. Nick and channel are not empty, no part has a byte 0 or the end of a line, none
-- but the text a blank, and the nick has no '!'.
pub received-relayed :
    (send : List ℕ → ℤ) (n : ℕ) (nick host : List ℕ) (c : ℕ) (chan text : List ℕ) (st : Client)
    → IsText (n ∷ nick)
    → IsText host
    → IsText (c ∷ chan)
    → IsText text
    → Lacks 32 (n ∷ nick)
    → Lacks 33 (n ∷ nick)
    → Lacks 32 host
    → Lacks 32 (c ∷ chan)
    → (char_at text 0 == 1) ≡ false
    → same_start 24 st.nick (c ∷ chan) ≡ false
    → received send (relayed (n ∷ nick) host (channel_line (c ∷ chan) text)) st
      ≡ some (mainprint text (act (name (n ∷ nick) 1) st))
unfolding parse_all parse_irc_message parse_split parse_other_response lacks same_text
received-relayed send n nick host c chan text st tn th tc tt' sn bn sh sc ctcp other =
    let m = message (c ∷ chan) text in
    let lack0 =
      Lacks-message 0 (c ∷ chan) text (lacks-Lacks 0 (codes "PRIVMSG ") refl)
        (lacks-Lacks 0 (codes " :") refl) refl tc.no_nul tt'.no_nul in
    let lack10 =
      Lacks-message 10 (c ∷ chan) text (lacks-Lacks 10 (codes "PRIVMSG ") refl)
        (lacks-Lacks 10 (codes " :") refl) refl tc.no_newline tt'.no_newline in
    ap (λ t. received send t st)
      (ap (relayed (n ∷ nick) host) (message_lem (c ∷ chan) text) ∙ relayed-end (n ∷ nick) host m)
    ∙ one_message send (relayed (n ∷ nick) host m) st
        (Lacks-relayed 0 (n ∷ nick) host m (lacks-Lacks 0 (codes ": !") refl) tn.no_nul th.no_nul
          lack0)
        (Lacks-relayed 10 (n ∷ nick) host m (lacks-Lacks 10 (codes ": !") refl) tn.no_newline
          th.no_newline lack10)
    ∙ ap (λ im. parse_split send im st >>= parse_all send [])
        (relayed-split n nick host c chan text sn sh sc tc.no_return tt'.no_return)
    ∙ ap (λ o. o >>= parse_all send [])
        (privmsg_lem send n nick host (c ∷ chan) text st bn ctcp other)
