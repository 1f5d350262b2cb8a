-- ===== src/Ctf/Client/Lobby/Wire.antt =====
-- The lobby shows the players that the server keeps.
use spectranet.Base.{
  ℕ, suc, ◌+◌, ◌-◌, ◌%◌, ◌==◌, ◌≤◌, ◌<◌, ◌≡◌, refl, sym, ap, ◌∙◌, arith, ltb, if◌then◌else◌,
  Bool-cases, inl, inr, Option, none, some, List, [], ◌∷◌, ◌++◌, length, replicate, codes, c_field,
  c_text-c_field, Lacks,
}
use mathlib.Core.Option
use spectranet.Ctf.Msg
use spectranet.Ctf.Types.{Player}
use spectranet.Ctf.World.{World}
use spectranet.Ctf.Matchmake.{
  is_game_startable, matchmake_msg, count_players, player_msgs, make_matchmake_msgs,
}
use spectranet.Ctf.Sound.{All, Slot, frames}
use spectranet.Ctf.Client.{next, walk_datagram}
use spectranet.Ctf.Client.Wire.{KnownBy, walk-frames, length-c_field}
use spectranet.Ctf.Client.Lobby.{
  Shown, text_at, marked_at, clear_player_list, reading, display_matchmake, set_startable, deeds_of,
  act_on, receive,
}

-- A player's line: the blue team from row 13 on the left, the red one on the right, and those
-- without a team from row 19 on. A mark stands in front of those who are ready.
abbrev pub row_of : Player → ℕ
row_of p = if ltb p.team 2 then 13 + p.playernum else 19 + p.playernum

abbrev pub column_of : Player → ℕ
column_of p = if p.team == 1 then 20 else 1

abbrev pub line_of : Player → Shown
line_of p =
    if p.flags.ready
    then marked_at (row_of p) (column_of p - 1) p.name
    else text_at (row_of p) (column_of p) p.name

unfoldable pub lines_of : List (Option Player) → List Shown
lines_of [] = []
lines_of (none ∷ ps) = lines_of ps
lines_of (some p ∷ ps) = line_of p ∷ lines_of ps

-- A name that a C string holds, and a number that fits the screen.
abbrev pub IsNamed : Player → Type 0
IsNamed p = (length p.name ≤ 15) × Lacks 0 p.name × (p.playernum < 200)

-- The messages of the players as ids and payloads.
payload : ℕ → Player → List ℕ
payload junk p = p.team ∷ p.playernum ∷ (if p.flags.ready then 1 else 0) ∷ c_field 16 junk p.name

player_frames : ℕ → List (Option Player) → List (ℕ × List ℕ)
player_frames junk [] = []
player_frames junk (none ∷ ps) = player_frames junk ps
player_frames junk (some p ∷ ps) = (Msg.matchmake_msg, payload junk p) ∷ player_frames junk ps

frames-player_frames :
    (junk : ℕ) (ps : List (Option Player)) → player_msgs junk ps ≡ frames (player_frames junk ps)
unfolding player_msgs matchmake_msg player_frames payload
frames-player_frames junk [] = refl
frames-player_frames junk (none ∷ ps) = frames-player_frames junk ps
frames-player_frames junk (some p ∷ ps) =
    ap (λ l. matchmake_msg junk p ++ l) (frames-player_frames junk ps)

length-player_frames :
    (junk : ℕ) (ps : List (Option Player)) → length (player_frames junk ps) ≡ count_players ps
unfolding player_frames count_players
length-player_frames junk [] = refl
length-player_frames junk (none ∷ ps) = length-player_frames junk ps
length-player_frames junk (some p ∷ ps) = ap suc (length-player_frames junk ps)

count_players-length : (ps : List (Option Player)) → count_players ps ≤ length ps
unfolding count_players
count_players-length [] = omega arith
count_players-length (none ∷ ps) = omega (arith, count_players-length ps)
count_players-length (some p ∷ ps) = omega (arith, count_players-length ps)

players-KnownBy :
    (junk : ℕ) (ps : List (Option Player)) → All (KnownBy reading) (player_frames junk ps)
unfolding player_frames payload reading
players-KnownBy junk [] = tt
players-KnownBy junk (none ∷ ps) = players-KnownBy junk ps
players-KnownBy junk (some p ∷ ps) = (
  λ rest. ap (λ k. next (suc (suc (suc k)))) (sym (length-c_field 16 junk p.name)),
  players-KnownBy junk ps,
)

display_lem :
    (junk : ℕ) (p : Player) → IsNamed p → display_matchmake (payload junk p) ≡ line_of p ∷ []
unfolding display_matchmake payload
display_lem junk p (short, no_nul, low) =
    let name = c_text-c_field 16 junk p.name (omega arith) no_nul in
    let row : row_of p % 256 ≡ row_of p = ground arith in
    elim (Bool-cases p.flags.ready) [
      | inl e ↦ rw (e, name, row) refl
      | inr e ↦ rw (e, name, row) refl
    ]

act_on-players :
    (junk : ℕ) (ps : List (Option Player))
    → All (Slot IsNamed) ps
    → act_on (player_frames junk ps) ≡ lines_of ps
unfolding act_on deeds_of player_frames lines_of
act_on-players junk [] u = refl
act_on-players junk (none ∷ ps) (u, more) = act_on-players junk ps more
act_on-players junk (some p ∷ ps) (named, more) =
    ap (λ l. l ++ act_on (player_frames junk ps)) (display_lem junk p named)
    ∙ ap (λ l. line_of p ∷ l) (act_on-players junk ps more)

-- What the whole message comes to.
abbrev pub lobby_of : World → List Shown
lobby_of w =
    clear_player_list
    ∷ text_at 9 7 (if is_game_startable w then codes "S to start game" else replicate 23 32)
    ∷ lines_of w.players

all_frames : World → List (ℕ × List ℕ)
all_frames w =
    (Msg.clr_player_list, [])
    ∷ (Msg.mm_startable, (if is_game_startable w then 1 else 0) ∷ [])
    ∷ player_frames w.junk w.players

all_frames-KnownBy : (w : World) → All (KnownBy reading) (all_frames w)
unfolding all_frames reading
all_frames-KnownBy w = (λ rest. refl, (λ rest. refl, players-KnownBy w.junk w.players))

make_lem :
    (w : World)
    → length w.players ≤ 253
    → make_matchmake_msgs w ≡ length (all_frames w) ∷ frames (all_frames w)
unfolding make_matchmake_msgs all_frames
make_lem w h =
    let few = count_players-length w.players in
    let same = length-player_frames w.junk w.players in
    let count : (2 + count_players w.players) % 256
        ≡ suc (suc (length (player_frames w.junk w.players))) =
      omega arith in
    rw (count, frames-player_frames w.junk w.players) refl

act_on-all_frames : (w : World) → All (Slot IsNamed) w.players → act_on (all_frames w) ≡ lobby_of w
unfolding act_on all_frames deeds_of set_startable
act_on-all_frames w named = elim (Bool-cases (is_game_startable w)) [
  | inl e ↦ rw e (
      ap (λ l. clear_player_list ∷ text_at 9 7 (codes "S to start game") ∷ l)
        (act_on-players w.junk w.players named))
  | inr e ↦ rw e (
      ap (λ l. clear_player_list ∷ text_at 9 7 (replicate 23 32) ∷ l)
        (act_on-players w.junk w.players named))
]

-- When the server tells a lobby of the match it prepares, with at most 253 slots and names that fit
-- their field, the client clears its list, shows whether the match can start, and then shows each
-- player once, in the order of the slots: at the place of its team and number, by its whole name,
-- and marked if it is ready.
pub receive-make_matchmake_msgs :
    (w : World)
    → length w.players ≤ 253
    → All (Slot IsNamed) w.players
    → receive (make_matchmake_msgs w) ≡ some (lobby_of w)
unfolding receive walk_datagram
receive-make_matchmake_msgs w few named =
    ap receive (make_lem w few)
    ∙ ap (Option.map act_on) (walk-frames reading (all_frames w) (all_frames-KnownBy w))
    ∙ ap some (act_on-all_frames w named)
