-- ===== src/Spectator/Board.antt =====
-- The spectators' score board shows what the server keeps.
use spectranet.Base.{
  ℕ, zero, suc, ◌+◌, ◌==◌, ◌<◌, ◌≤◌, ◌≡◌, refl, ap, ◌∙◌, arith, ltb, if◌then◌else◌, ℤ, pos, mod_ℤ,
  not, ◌&&◌, Bool-cases, inl, inr, Option, none, some, List, [], ◌∷◌, ◌++◌, length, get_elem?,
  codes, decimal, c_text, Gives, Gives-bind, Gives-at, Gives-weaken, ◌>>=◌,
}
use spectranet.Ctf.Types.{Player}
use spectranet.Ctf.Status.{goals_bytes, team_bytes, kills_bytes, spectator_score_msg}
use spectranet.Spectator.Draw.{owner_name}
use spectranet.Spectator.Scores.{ScoreSurface, Board, entry, score_entries, show_scores}
use spectranet.Spectator.Wire.{length-goals_bytes, length-kills_bytes}

-- The entries that are shown: team, name and goals.
unfoldable pub visible : List ScoreSurface → List (ℕ × List ℕ × List ℕ)
visible [] = []
visible (s ∷ ss) = elim s.player [
  | none ↦ visible ss
  | some name ↦ (s.team, name, s.goals) ∷ visible ss
]

abbrev pub name_of : List ℕ → List ℕ
name_of name = if length (c_text name) == 0 then codes "Unknown!" else c_text name

-- The players in a team who do not only look on, with their names and goals.
unfoldable pub on_board : List (List ℕ) → List (Option Player) → List (ℕ × List ℕ × List ℕ)
on_board [] ps = []
on_board (n ∷ ns) [] = []
on_board (n ∷ ns) (none ∷ ps) = on_board ns ps
on_board (n ∷ ns) (some p ∷ ps) =
    let rest = on_board ns ps in
    if not p.flags.spectator && ltb p.team 2
    then (p.team, name_of n, decimal (pos p.goals)) ∷ rest
    else rest

get-append_right :
    {A : Type 0} (xs ys : List A) (i j : ℕ)
    → j ≡ length xs + i
    → get_elem? (xs ++ ys) j ≡ get_elem? ys i
get-append_right [] ys i j e = ap (get_elem? ys) (omega arith)
get-append_right (x ∷ xs) ys i zero e = let bad : 1 ≤ 0 = omega arith in elim bad [ ]
get-append_right (x ∷ xs) ys i (suc j) e = get-append_right xs ys i j (omega arith)

get-append_left :
    {A : Type 0} (xs ys : List A) (i : ℕ) → i < length xs → get_elem? (xs ++ ys) i ≡ get_elem? xs i
get-append_left [] ys i h = let bad : 1 ≤ 0 = omega arith in elim bad [ ]
get-append_left (x ∷ xs) ys zero h = refl
get-append_left (x ∷ xs) ys (suc i) h = get-append_left xs ys i (omega arith)

visible-entry :
    (name : List ℕ) (goals team : ℕ) (s : ScoreSurface) (ss : List ScoreSurface)
    → visible (entry name goals team s ∷ ss)
      ≡ (if ltb team 2 then (team, name, decimal (pos goals)) ∷ visible ss else visible ss)
unfolding visible entry
visible-entry name goals team s ss = elim (Bool-cases (ltb team 2)) [
  | inl e ↦ rw e refl
  | inr e ↦ rw e refl
]

-- One player, whose goals and team are in the message.
on_board-cons :
    (n : List ℕ) (ns : List (List ℕ)) (junk : ℕ) (p : Player) (ps : List (Option Player))
    → (if ltb (if p.flags.spectator then 255 else p.team) 2
        then (
          (if p.flags.spectator then 255 else p.team),
          name_of n,
          decimal (pos (if p.flags.spectator then junk else p.goals)),
        )
          ∷ on_board ns ps
        else on_board ns ps)
      ≡ on_board (n ∷ ns) (some p ∷ ps)
unfolding on_board
on_board-cons n ns junk p ps = elim (Bool-cases p.flags.spectator) [
  | inl e ↦ rw e refl
  | inr e ↦ rw e refl
]

-- The places of the message and of the names that slot `i` and those behind it read.
abbrev Reads : List ℕ → ℕ → List ℕ → Type 0
Reads msg i xs = (j k : ℕ) → j < length xs → k ≡ i + j → get_elem? msg k ≡ get_elem? xs j

abbrev Shows : List (List ℕ) → List (Option Player) → List ScoreSurface → Type 0
Shows ns ps es = visible es ≡ on_board ns ps

none_shown : visible [] ≡ on_board [] []
unfolding visible on_board
none_shown = refl

skip_none :
    (n : List ℕ) (ns : List (List ℕ)) (ps : List (Option Player))
    → on_board ns ps ≡ on_board (n ∷ ns) (none ∷ ps)
unfolding on_board
skip_none n ns ps = refl

-- A slot whose goals and team are in the message, in front of entries that show the rest.
abbrev with_slot : List ℕ → ℕ → ℕ → List (ℕ × List ℕ × List ℕ) → List (ℕ × List ℕ × List ℕ)
with_slot n goals team rest =
    if ltb team 2 then (team, name_of n, decimal (pos goals)) ∷ rest else rest

score_slot :
    (msg : List ℕ) (players : List (List ℕ)) (i goals team : ℕ) (s : ScoreSurface)
    (ss : List ScoreSurface) (n : List ℕ) (rest : List (ℕ × List ℕ × List ℕ))
    → get_elem? msg (2 + i) ≡ some goals
    → get_elem? msg (34 + i) ≡ some team
    → get_elem? players i ≡ some n
    → Gives (λ es. visible es ≡ rest) (score_entries players msg (suc i) ss)
    → Gives (λ es. visible es ≡ with_slot n goals team rest) (score_entries players msg i (s ∷ ss))
unfolding score_entries owner_name
score_slot msg players i goals team s ss n rest g t e later = Gives-at _ _ _ g (
    Gives-at _ _ _ t (
      Gives-at _ _ _ (ap (λ o. o >>= λ nm. some (name_of nm)) e) (
        Gives-bind (λ es. visible es ≡ rest) _ (score_entries players msg (suc i) ss) _ later
          (λ es h. visible-entry (name_of n) goals team s es ∙ ap (with_slot n goals team) h))))

score_entries-Shows :
    (junk : ℕ) (msg : List ℕ) (players : List (List ℕ)) (i : ℕ) (ss : List ScoreSurface)
    (ns : List (List ℕ)) (ps : List (Option Player))
    → length ss ≡ length ps
    → length ns ≡ length ps
    → Reads msg (2 + i) (goals_bytes junk ps)
    → Reads msg (34 + i) (team_bytes ps)
    → ((j k : ℕ) → j < length ns → k ≡ i + j → get_elem? players k ≡ get_elem? ns j)
    → Gives (Shows ns ps) (score_entries players msg i ss)
unfolding score_entries owner_name goals_bytes team_bytes
score_entries-Shows junk msg players i [] [] [] e l g t n = none_shown
score_entries-Shows junk msg players i [] ns (p ∷ ps) e l g t n =
    let bad : 1 ≤ 0 = omega (arith, e) in elim bad [ ]
score_entries-Shows junk msg players i [] (x ∷ ns) [] e l g t n =
    let bad : 1 ≤ 0 = omega (arith, l) in elim bad [ ]
score_entries-Shows junk msg players i (s ∷ ss) ns [] e l g t n =
    let bad : 1 ≤ 0 = omega (arith, e) in elim bad [ ]
score_entries-Shows junk msg players i (s ∷ ss) [] (p ∷ ps) e l g t n =
    let bad : 1 ≤ 0 = omega (arith, l) in elim bad [ ]
score_entries-Shows junk msg players i (s ∷ ss) (x ∷ ns) (none ∷ ps) e l g t n =
    Gives-weaken (λ es. visible es ≡ on_board ns ps) (Shows (x ∷ ns) (none ∷ ps)) _
      (λ es h. h ∙ skip_none x ns ps)
      (score_slot msg players i junk 255 s ss x (on_board ns ps)
        (g 0 (2 + i) (omega arith) (omega arith)) (t 0 (34 + i) (omega arith) (omega arith))
        (n 0 i (omega arith) (omega arith))
        (score_entries-Shows junk msg players (suc i) ss ns ps (omega arith) (omega arith)
          (λ j k b q. g (suc j) k (omega arith) (omega arith))
          (λ j k b q. t (suc j) k (omega arith) (omega arith))
          (λ j k b q. n (suc j) k (omega arith) (omega arith))))
score_entries-Shows junk msg players i (s ∷ ss) (x ∷ ns) (some p ∷ ps) e l g t n =
    let goals = if p.flags.spectator then junk else p.goals in
    let team = if p.flags.spectator then 255 else p.team in
    Gives-weaken (λ es. visible es ≡ with_slot x goals team (on_board ns ps))
      (Shows (x ∷ ns) (some p ∷ ps)) _ (λ es h. h ∙ on_board-cons x ns junk p ps)
      (score_slot msg players i goals team s ss x (on_board ns ps)
        (g 0 (2 + i) (omega arith) (omega arith)) (t 0 (34 + i) (omega arith) (omega arith))
        (n 0 i (omega arith) (omega arith))
        (score_entries-Shows junk msg players (suc i) ss ns ps (omega arith) (omega arith)
          (λ j k b q. g (suc j) k (omega arith) (omega arith))
          (λ j k b q. t (suc j) k (omega arith) (omega arith))
          (λ j k b q. n (suc j) k (omega arith) (omega arith))))

-- The goals and the teams in the message.
goals_at :
    (junk : ℕ) (s1 s2 : ℤ) (ps : List (Option Player))
    → length ps ≡ 16
    → Reads (spectator_score_msg junk s1 s2 ps) 2 (goals_bytes junk ps)
unfolding spectator_score_msg
goals_at junk s1 s2 ps h j zero b e = let bad : 1 ≤ 0 = omega arith in elim bad [ ]
goals_at junk s1 s2 ps h j (suc zero) b e = let bad : 1 ≤ 0 = omega arith in elim bad [ ]
goals_at junk s1 s2 ps h j (suc (suc k)) b e =
    ap (get_elem? (goals_bytes junk ps ++ (kills_bytes junk ps ++ team_bytes ps))) (omega arith)
    ∙ get-append_left (goals_bytes junk ps) _ j b

teams_at :
    (junk : ℕ) (s1 s2 : ℤ) (ps : List (Option Player))
    → length ps ≡ 16
    → Reads (spectator_score_msg junk s1 s2 ps) 34 (team_bytes ps)
unfolding spectator_score_msg
teams_at junk s1 s2 ps h j zero b e = let bad : 1 ≤ 0 = omega arith in elim bad [ ]
teams_at junk s1 s2 ps h j (suc zero) b e = let bad : 1 ≤ 0 = omega arith in elim bad [ ]
teams_at junk s1 s2 ps h j (suc (suc k)) b e =
    let goals = length-goals_bytes junk ps in
    let kills = length-kills_bytes junk ps in
    get-append_right (goals_bytes junk ps) _ (16 + j) k (omega arith)
    ∙ get-append_right (kills_bytes junk ps) (team_bytes ps) j (16 + j) (omega arith)

-- When the server's score message for its 16 slots arrives, the board shows both scores as the
-- bytes they are sent as, and below them, in the order of the slots, exactly the players that are
-- in a team and do not only look on, each with its team, its goals and the name that was sent for
-- the slot.
pub show_scores-on_board :
    (junk : ℕ) (s1 s2 : ℤ) (ps : List (Option Player)) (names : List (List ℕ)) (b : Board)
    → length ps ≡ 16
    → length names ≡ 16
    → length b.scores ≡ 16
    → Gives
        (λ after.
          (after.blue_score ≡ some (decimal (pos (mod_ℤ s1 256))))
          × (after.red_score ≡ some (decimal (pos (mod_ℤ s2 256))))
          × (visible after.scores ≡ on_board names ps))
        (show_scores names (spectator_score_msg junk s1 s2 ps) b)
unfolding show_scores spectator_score_msg
show_scores-on_board junk s1 s2 ps names b h k l =
    Gives-bind (Shows names ps) _
      (score_entries names (spectator_score_msg junk s1 s2 ps) 0 b.scores) _
      (score_entries-Shows junk (spectator_score_msg junk s1 s2 ps) names 0 b.scores names ps
        (omega arith) (omega arith) (goals_at junk s1 s2 ps h) (teams_at junk s1 s2 ps h)
        (λ j i c e. ap (get_elem? names) (omega arith)))
      (λ es e. (refl, refl, e))
