-- ===== src/Spectator/Wire.antt =====
-- What the server queues for a spectator is what the spectator acts on.
use spectranet.Base.{
  ℕ, suc, ◌<◌, ◌≡◌, refl, sym, ap, ℤ, pos, Option, some, List, [], ◌∷◌, ◌++◌, length, length-append,
  arith, c_field, false,
}
use spectranet.Ctf.Msg
use spectranet.Ctf.Types.{Object, Player}
use spectranet.Ctf.World.{MsgBuf}
use spectranet.Ctf.Buffer.{empty_buf, player_id_msg}
use spectranet.Ctf.Status.{goals_bytes, team_bytes, kills_bytes, spectator_score_msg}
use spectranet.Ctf.View.{type_id, sprite_msg16}
use spectranet.Ctf.Sound.{All}
use spectranet.Ctf.Physics.Motion.{IsDir}
use mathlib.Core.Option
use spectranet.Ctf.Client.{next}
use spectranet.Ctf.Client.Wire.{KnownBy, queue_all, walk-queue_all, length-c_field}
use spectranet.Spectator.Reader.{reading, act_on, get_message}

-- The messages that the server makes for a spectator, from what it keeps: there are 16 slots, a tank
-- belongs to one of them, and its direction is one of the compass, in which its controls keep it.
pub data FromServer : ℕ × List ℕ → Type 0 where
  sprite :
      (junk : ℕ) (obj : Object) (objid : ℕ) (owner : Option Player)
      → (type_id obj.type ≡ 0 → (i : ℕ) × (obj.owner ≡ pos i) × (i < 16) × IsDir obj.commanded.dir)
      → FromServer (Msg.sprite_msg16, sprite_msg16 junk obj objid owner)
  removed : (objid reason : ℕ) → FromServer (Msg.rm_sprite_msg, objid ∷ reason ∷ [])
  status :
      (junk : ℕ) (text : List ℕ) → FromServer (Msg.message_msg, length text ∷ c_field 42 junk text)
  ping : (b : ℕ) → FromServer (Msg.ping_msg, b ∷ [])
  player_id :
      (junk i : ℕ) (p : Player) → i < 16 → FromServer (Msg.player_id_msg, player_id_msg junk i p)
  scores :
      (junk : ℕ) (blue red : ℤ) (ps : List (Option Player))
      → length ps ≡ 16
      → FromServer (Msg.spec_scoreboard_msg, spectator_score_msg junk blue red ps)
  game_end :
      (reason winner blue red : ℕ)
      → FromServer (Msg.spec_game_end, reason ∷ winner ∷ blue ∷ red ∷ [])

pub length-goals_bytes :
    (junk : ℕ) (ps : List (Option Player)) → length (goals_bytes junk ps) ≡ length ps
unfolding goals_bytes
length-goals_bytes junk [] = refl
length-goals_bytes junk (Option.none ∷ ps) = ap suc (length-goals_bytes junk ps)
length-goals_bytes junk (some p ∷ ps) = ap suc (length-goals_bytes junk ps)

pub length-team_bytes : (ps : List (Option Player)) → length (team_bytes ps) ≡ length ps
unfolding team_bytes
length-team_bytes [] = refl
length-team_bytes (Option.none ∷ ps) = ap suc (length-team_bytes ps)
length-team_bytes (some p ∷ ps) = ap suc (length-team_bytes ps)

pub length-kills_bytes :
    (junk : ℕ) (ps : List (Option Player)) → length (kills_bytes junk ps) ≡ length ps
unfolding kills_bytes
length-kills_bytes junk [] = refl
length-kills_bytes junk (p ∷ ps) = ap suc (length-kills_bytes junk ps)

length-spectator_score_msg :
    (junk : ℕ) (blue red : ℤ) (ps : List (Option Player))
    → length ps ≡ 16
    → length (spectator_score_msg junk blue red ps) ≡ 50
unfolding spectator_score_msg
length-spectator_score_msg junk blue red ps h = omega (
  arith,
  h,
  length-append (goals_bytes junk ps) (kills_bytes junk ps ++ team_bytes ps),
  length-append (kills_bytes junk ps) (team_bytes ps),
  length-goals_bytes junk ps,
  length-kills_bytes junk ps,
  length-team_bytes ps,
)

FromServer-KnownBy : {m : ℕ × List ℕ} → FromServer m → KnownBy reading m
unfolding reading sprite_msg16 player_id_msg
FromServer-KnownBy (sprite junk obj objid owner tank) = λ rest. refl
FromServer-KnownBy (removed objid reason) = λ rest. refl
FromServer-KnownBy (status junk text) =
    λ rest. ap (λ k. next (suc k)) (sym (length-c_field 42 junk text))
FromServer-KnownBy (ping b) = λ rest. refl
FromServer-KnownBy (player_id junk i p low) =
    λ rest. ap (λ k. next (suc k)) (sym (length-c_field 16 junk p.name))
FromServer-KnownBy (scores junk blue red ps h) =
    λ rest. ap next (sym (length-spectator_score_msg junk blue red ps h))
FromServer-KnownBy (game_end reason winner blue red) = λ rest. refl

All-FromServer : (ms : List (ℕ × List ℕ)) → All FromServer ms → All (KnownBy reading) ms
All-FromServer [] u = tt
All-FromServer (m ∷ ms) (f, fs) = (FromServer-KnownBy f, All-FromServer ms fs)

-- When the server queues sprites, their removal, status lines, pings, names, scores and ends of
-- matches for a spectator, they fit the buffer, and each tank belongs to one of the 16 slots and has
-- a direction of the compass, the spectator acts on exactly these messages from the datagram, each
-- once and in their order.
pub get_message-queue_all :
    (ms : List (ℕ × List ℕ)) {b : MsgBuf}
    → All FromServer ms
    → queue_all empty_buf ms ≡ some b
    → get_message (b.count ∷ b.body) ≡ some (act_on false ms)
unfolding get_message
get_message-queue_all ms {b} known h =
    ap (Option.map (act_on false)) (walk-queue_all reading ms {b = b} (All-FromServer ms known) h)
