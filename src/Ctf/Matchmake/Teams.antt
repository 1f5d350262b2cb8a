-- ===== src/Ctf/Matchmake/Teams.antt =====
-- The numbers that players get within their teams, and when a match can start.
use spectranet.Base.{
  ℕ, zero, suc, ◌+◌, ◌%◌, ◌≤◌, ◌≡◌, refl, ap, sym, arith, ℤ, pos, ◌≤ℤ◌, ltb_ℤ, Option, none, some,
  Bool, true, false, List, [], ◌∷◌, length, ◌⊎◌, inl, inr, if◌then◌else◌, ltb, not, ◌&&◌, ◌↔◌,
}
use spectranet.Ctf.Types.{Player}
use spectranet.Ctf.World.{World}
use spectranet.Ctf.Sound.{All, Slot}
use spectranet.Ctf.Matchmake.{order_from, startable_from, is_game_startable}

-- The players in the slots, each numbered by how many of its team stand in the slots before it.
abbrev pub numbered : ℕ → ℕ → ℕ → List (Option Player) → List (Option Player)
numbered a b c [] = []
numbered a b c (none ∷ ps) = none ∷ numbered a b c ps
numbered a b c (some p ∷ ps) = elim p.team [
  | zero ↦ some (record p { playernum = a }) ∷ numbered (suc a) b c ps
  | suc zero ↦ some (record p { playernum = b }) ∷ numbered a (suc b) c ps
  | suc (suc n) ↦ some (record p { playernum = c }) ∷ numbered a b (suc c) ps
]

team_cases : (t : ℕ) → t ≤ 2 → (t ≡ 0) ⊎ (t ≡ 1) ⊎ (t ≡ 2)
team_cases t h = ground arith

byte_small : (a n : ℕ) → a + suc n ≤ 256 → a % 256 ≡ a
byte_small a n h = omega arith

order_from_lem :
    (a b c : ℕ) (ps : List (Option Player))
    → All (Slot (λ p. p.team ≤ 2)) ps
    → a + length ps ≤ 256
    → b + length ps ≤ 256
    → c + length ps ≤ 256
    → order_from (a ∷ b ∷ c ∷ []) ps ≡ some (numbered a b c ps)
unfolding order_from
order_from_lem a b c [] ok ha hb hc = refl
order_from_lem a b c (none ∷ ps) (u, ok) ha hb hc =
    rw (order_from_lem a b c ps ok (omega arith) (omega arith) (omega arith)) refl
order_from_lem a b c (some p ∷ ps) (team, ok) ha hb hc = elim (team_cases p.team team) [
  | inl blue ↦
      rw
        (
          blue,
          order_from_lem (suc a) b c ps ok (omega arith) (omega arith) (omega arith),
          byte_small a _ ha,
        )
        (ap (λ t. some (some (record p { team = t; playernum = a }) ∷ numbered (suc a) b c ps))
          (sym blue))
  | inr (inl red) ↦
      rw
        (
          red,
          order_from_lem a (suc b) c ps ok (omega arith) (omega arith) (omega arith),
          byte_small b _ hb,
        )
        (ap (λ t. some (some (record p { team = t; playernum = b }) ∷ numbered a (suc b) c ps))
          (sym red))
  | inr (inr third) ↦
      rw
        (
          third,
          order_from_lem a b (suc c) ps ok (omega arith) (omega arith) (omega arith),
          byte_small c _ hc,
        )
        (ap (λ t. some (some (record p { team = t; playernum = c }) ∷ numbered a b (suc c) ps))
          (sym third))
]

-- The slots that hold a player.
abbrev pub occupied : List (Option Player) → ℕ
occupied [] = 0
occupied (none ∷ ps) = occupied ps
occupied (some p ∷ ps) = suc (occupied ps)

-- A player that a match can start with: ready, and in a team unless it only looks on.
abbrev pub IsSettled : Player → Type 0
IsSettled p = (p.flags.ready ≡ true) × ((p.team ≤ 1) ⊎ (p.flags.spectator ≡ true))

start_lem :
    (need : ℤ) (n : ℕ) → (if ltb_ℤ (pos n) need then false else true) ≡ true → need ≤ℤ pos (n + 0)
start_lem need n h = ground arith

start_back :
    (need : ℤ) (n : ℕ) → need ≤ℤ pos (n + 0) → (if ltb_ℤ (pos n) need then false else true) ≡ true
start_back need n h = ground arith

settled_lem :
    (ready spectator : Bool) (team : ℕ) (rest : Bool)
    → ((if not ready then false else if ltb 1 team && not spectator then false else rest) ≡ true)
      ↔ ((rest ≡ true) × (ready ≡ true) × ((team ≤ 1) ⊎ (spectator ≡ true)))
settled_lem ready spectator team rest = (λ h. ground arith, λ h. ground arith)

more_lem : (need : ℤ) (n k : ℕ) → (need ≤ℤ pos (suc n + k)) ↔ (need ≤ℤ pos (n + suc k))
more_lem need n k = (λ h. omega arith, λ h. omega arith)

startable_from_lem :
    (need : ℤ) (n : ℕ) (ps : List (Option Player))
    → (startable_from need n ps ≡ true)
      ↔ ((need ≤ℤ pos (n + occupied ps)) × All (Slot IsSettled) ps)
unfolding startable_from
startable_from_lem need n [] =
    (λ e. (start_lem need n e, tt), λ (enough, all). start_back need n enough)
startable_from_lem need n (none ∷ ps) =
    let (to, back) = startable_from_lem need n ps in
    (λ e. ((to e).0, (tt, (to e).1)), λ (enough, (u, all)). back (enough, all))
startable_from_lem need n (some p ∷ ps) =
    let (to, back) = startable_from_lem need (suc n) ps in
    let (split, join) =
      settled_lem p.flags.ready p.flags.spectator p.team (startable_from need (suc n) ps) in
    let count = more_lem need n (occupied ps) in
    (
      λ e.
          (let (rest, ready, team) = split e in
            let (enough, all) = to rest in (count.0 enough, ((ready, team), all))),
      λ (enough, ((ready, team), all)). join (back (count.1 enough, all), ready, team),
    )

no_more : (need : ℤ) (k : ℕ) → need ≤ℤ pos (0 + k) → need ≤ℤ pos k
no_more need k h = omega arith

-- A match can start exactly when at least the minimum of slots hold a player, and each of them is
-- ready and in a team or only looks on. Those that look on count towards the minimum.
pub is_game_startable_lem :
    (w : World)
    → (is_game_startable w ≡ true)
      ↔ ((w.min_players ≤ℤ pos (occupied w.players)) × All (Slot IsSettled) w.players)
unfolding is_game_startable startable_from
is_game_startable_lem w =
    let (to, back) = startable_from_lem w.min_players 0 w.players in
    (
      λ e. (let (enough, all) = to e in (no_more _ _ enough, all)),
      λ (enough, all). back (omega arith, all),
    )

-- The players of at most 256 slots, all in one of the three teams, are numbered within their teams
-- by how many of the team stand in the slots before them, and nothing else about them changes.
pub order_from-numbered :
    (ps : List (Option Player))
    → All (Slot (λ p. p.team ≤ 2)) ps
    → length ps ≤ 256
    → order_from (0 ∷ 0 ∷ 0 ∷ []) ps ≡ some (numbered 0 0 0 ps)
order_from-numbered ps ok few = order_from_lem 0 0 0 ps ok (omega arith) (omega arith) (omega arith)
