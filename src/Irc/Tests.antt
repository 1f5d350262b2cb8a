-- ===== src/Irc/Tests.antt =====
-- A conversation in a channel.
use Prim.{tt}
use spectranet.Base.{
  ℕ, ◌≡◌, refl, arith, ℤ, pos, true, some, List, [], ◌∷◌, ◌++◌, codes, lacks, lacks-Lacks,
  same_start,
}
use spectranet.Irc.Input.{Input, resetinput}
use spectranet.Irc.Input.Line.{IsInput, edit_all, handle_keys, handle_keys-resetinput}
use spectranet.Irc.Client.{Client, act, name, sent, mainprint, crlf}
use spectranet.Irc.Server.{extract_irc_messages, received}
use spectranet.Irc.Server.Lines.{with_ends, extract_irc_messages-with_ends}
use spectranet.Irc.Server.Ping.{ping, received-ping}
use spectranet.Irc.Server.Talk.{IsText, channel_line, relayed, received-relayed}
use spectranet.Irc.User.{parse_user_cmd}
use spectranet.Irc.User.Chat.{parse_user_cmd-chat}

abbrev blank : Input
blank = record {
  inputbuf = [];
  inputidx = 0;
  charpos = 0;
  input_ready = true;
  allow_blank_string = true;
  shown = [];
}

-- "hj", the last key taken back, and "i".
abbrev typed : List ℕ
typed = 104 ∷ 106 ∷ 12 ∷ 105 ∷ 13 ∷ []

typed_text : edit_all typed [] ≡ codes "hi"
unfolding edit_all
typed_text = refl

handle_keys-resetinput_example : IsInput (edit_all typed []) (handle_keys typed (resetinput blank))
handle_keys-resetinput_example = handle_keys-resetinput typed blank

abbrev two_lines : List (List ℕ)
two_lines = codes "PING :a" ∷ codes "NOTICE b" ∷ []

extract_irc_messages-with_ends_example :
    extract_irc_messages (with_ends two_lines ++ codes ":c PRIV") ≡ two_lines
unfolding lacks
extract_irc_messages-with_ends_example =
    extract_irc_messages-with_ends two_lines (codes ":c PRIV")
      (
        lacks-Lacks 0 (codes "PING :a") refl,
        lacks-Lacks 10 (codes "PING :a") refl,
        (lacks-Lacks 0 (codes "NOTICE b") refl, lacks-Lacks 10 (codes "NOTICE b") refl, tt),
      )
      (lacks-Lacks 10 (codes ":c PRIV") refl)

abbrev send_all : List ℕ → ℤ
send_all s = pos 1

abbrev on_channel : Client
on_channel = record { nick = codes "bob"; chan = codes "#zx"; done = [] }

received-ping_example :
    received send_all (ping (codes "irc.net") ++ (10 ∷ [])) on_channel
    ≡ some (act (sent ((codes "PONG " ++ codes "irc.net") ++ crlf)) on_channel)
unfolding lacks
received-ping_example =
    received-ping send_all 105 (codes "rc.net") 1 on_channel (lacks-Lacks 0 (codes "irc.net") refl)
      (lacks-Lacks 10 (codes "irc.net") refl) (lacks-Lacks 13 (codes "irc.net") refl) (omega arith)
      refl

-- A known text has none of the bytes that end one.
text : (s : List ℕ) → lacks 0 s ≡ true → lacks 10 s ≡ true → lacks 13 s ≡ true → IsText s
text s a b c = record {
  no_nul = lacks-Lacks 0 s a;
  no_newline = lacks-Lacks 10 s b;
  no_return = lacks-Lacks 13 s c;
}

received-relayed_example :
    received send_all
      (relayed (codes "amy") (codes "a@home") (channel_line (codes "#zx") (codes "hi")))
      on_channel
    ≡ some (mainprint (codes "hi") (act (name (codes "amy") 1) on_channel))
unfolding lacks same_start
received-relayed_example =
    received-relayed send_all 97 (codes "my") (codes "a@home") 35 (codes "zx") (codes "hi")
      on_channel (text (codes "amy") refl refl refl) (text (codes "a@home") refl refl refl)
      (text (codes "#zx") refl refl refl) (text (codes "hi") refl refl refl)
      (lacks-Lacks 32 (codes "amy") refl) (lacks-Lacks 33 (codes "amy") refl)
      (lacks-Lacks 32 (codes "a@home") refl) (lacks-Lacks 32 (codes "#zx") refl) refl refl

parse_user_cmd-chat_example :
    parse_user_cmd send_all (codes "hi") on_channel
    ≡ some (
      true,
      mainprint (codes "hi") (
          act
            (name on_channel.nick 2)
            (act (sent (channel_line (codes "#zx") (codes "hi"))) on_channel)),
    )
parse_user_cmd-chat_example =
    parse_user_cmd-chat send_all 104 (codes "i") 35 (codes "zx") on_channel 1 refl (omega arith)
      refl (omega arith) refl
