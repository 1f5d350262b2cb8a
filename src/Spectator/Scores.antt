-- ===== src/Spectator/Scores.antt =====
-- The score board and the result of a match: showScores, blitScores, showWinner, blitWinner and
-- startGame of spectator/gfx.c.
use spectranet.Base.{
  ℕ, suc, ◌+◌, ◌/◌, ◌==◌, ltb, if◌then◌else◌, ℤ, pos, ◌+ℤ◌, ◌-ℤ◌, Option, none, some, List, [], ◌∷◌,
  ◌++◌, get_elem?, replicate, codes, decimal, ◌>>=◌,
}
use spectranet.Spectator.Draw.{Shape, text, owner_name}

-- `ScoreSurface`; the pictures of texts are the texts, and the one of the player also tells whether
-- the entry is shown.
pub record ScoreSurface : Type 0 where
  pub team : ℕ
  pub player : Option (List ℕ)
  pub goals : List ℕ

-- `blueScoreSurface`, `redScoreSurface`, `scores` and `scsurface`.
pub record Board : Type 0 where
  pub blue_score : Option (List ℕ)
  pub red_score : Option (List ℕ)
  pub scores : List ScoreSurface
  pub scsurface : Option (List ℕ)

unfoldable pub init_board : Board
init_board = record {
  blue_score = none;
  red_score = none;
  scores = replicate 16 (record { team = 0; player = none; goals = [] });
  scsurface = none;
}

-- One entry, for a name, a number of goals and a team.
unfoldable pub entry : List ℕ → ℕ → ℕ → ScoreSurface → ScoreSurface
entry name goals team s =
    if ltb team 2
    then record { team = team; player = some name; goals = decimal (pos goals) }
    else record s { player = none }

-- The loop of `showScores` from slot `i` on, over the entries, with the bytes of the message at
-- `playerGoals` and `playerTeam`; `none` reads outside of the message or of the names.
unfoldable pub score_entries :
    List (List ℕ) → List ℕ → ℕ → List ScoreSurface → Option (List ScoreSurface)
unfolding entry owner_name
score_entries players msg i [] = some []
score_entries players msg i (s ∷ ss) = do
  goals ← get_elem? msg (2 + i)
  team ← get_elem? msg (34 + i)
  name ← owner_name players i
  rest ← score_entries players msg (suc i) ss
  some (entry name goals team s ∷ rest)

unfoldable pub show_scores : List (List ℕ) → List ℕ → Board → Option Board
unfolding score_entries
show_scores players msg b = do
  blue ← get_elem? msg 0
  red ← get_elem? msg 1
  entries ← score_entries players msg 0 b.scores
  some (record b {
    blue_score = some (decimal (pos blue));
    red_score = some (decimal (pos red));
    scores = entries;
  })

abbrev pub score_text : ℤ → ℤ → Option (List ℕ) → List Shape
score_text x y none = []
score_text x y (some t) = text x y t ∷ []

-- The loop of `blitScores`, with the heights of the next lines of both teams.
unfoldable pub blit_entries : ℤ → ℤ → ℤ → List ScoreSurface → List Shape
unfolding ◌+ℤ◌ ◌-ℤ◌
blit_entries cntr blue_y red_y [] = []
blit_entries cntr blue_y red_y (s ∷ ss) =
    let skipped = blit_entries cntr blue_y red_y ss in
    let blue = blit_entries cntr (blue_y +ℤ pos 32) red_y ss in
    let red = blit_entries cntr blue_y (red_y +ℤ pos 32) ss in
    elim s.player [
      | none ↦ skipped
      | some name ↦
          if s.team == 0
          then text (cntr -ℤ pos 500) blue_y name ∷ text (cntr -ℤ pos 250) blue_y s.goals ∷ blue
          else text (cntr +ℤ pos 100) red_y name ∷ text (cntr +ℤ pos 350) red_y s.goals ∷ red
    ]

-- The board on a surface of the height `hgt` whose middle is at `cntr`.
unfoldable pub blit_scores : ℤ → ℤ → Board → List Shape
unfolding blit_entries ◌+ℤ◌ ◌-ℤ◌
blit_scores cntr hgt b =
    score_text (cntr -ℤ pos 100) (hgt -ℤ pos 100) b.blue_score
    ++ (score_text cntr (hgt -ℤ pos 100) b.red_score
        ++ (text (cntr +ℤ pos 100) (hgt -ℤ pos 100) (codes "Player")
            ∷ text (cntr +ℤ pos 350) (hgt -ℤ pos 100) (codes "Goals")
            ∷ text (cntr -ℤ pos 500) (hgt -ℤ pos 100) (codes "Player")
            ∷ text (cntr -ℤ pos 250) (hgt -ℤ pos 100) (codes "Goals")
            ∷ blit_entries cntr (hgt -ℤ pos 68) (hgt -ℤ pos 68) b.scores))

-- The result of a match, by the team that wins; any other number is a draw.
unfoldable pub winner_text : ℕ → ℕ → ℕ → List ℕ
winner_text team_win blue red =
    if team_win == 0
    then codes "Blue team wins " ++ (decimal (pos blue) ++ (codes " : " ++ decimal (pos red)))
    else if team_win == 1
    then codes "Red team wins " ++ (decimal (pos red) ++ (codes " : " ++ decimal (pos blue)))
    else codes "Score draw! " ++ (decimal (pos blue) ++ (codes " : " ++ decimal (pos red)))

unfoldable pub show_winner : List ℕ → Board → Option Board
unfolding winner_text
show_winner msg b = do
  team_win ← get_elem? msg 1
  blue ← get_elem? msg 2
  red ← get_elem? msg 3
  some (record b { scsurface = some (winner_text team_win blue red) })

unfoldable pub start_game : Board → Board
start_game b = record b { scsurface = none }

-- The result in the middle of the screen; `wid` and `tall` are the sizes of a rendered text.
unfoldable pub blit_winner : (List ℕ → ℕ) → (List ℕ → ℕ) → ℕ → ℕ → Board → List Shape
unfolding ◌-ℤ◌
blit_winner wid tall cntr hgt b = elim b.scsurface [
  | none ↦ []
  | some t ↦ text (pos cntr -ℤ pos (wid t / 2)) (pos (hgt / 2) -ℤ pos (tall t / 2)) t ∷ []
]
