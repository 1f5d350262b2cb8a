-- ===== src/Tank/Tests.antt =====
-- A match of the tank game on two machines.
use spectranet.Base.{ℕ, ◌≡◌, refl, true, false, List, [], ◌∷◌, replicate}
use spectranet.Tank.{Background, Keys, Machine, start_game, match_from}
use spectranet.Tank.Lockstep.{match_agree}

-- A screen without barriers.
abbrev plain_ground : Background ℕ
plain_ground = record { screen_str = λ s row col. 32; print_at_inv = λ s row col c d. s }

abbrev right : Keys
right = record { right = true; left = false; fire = false }

abbrev shoot : Keys
shoot = record { right = false; left = false; fire = true }

abbrev first_machine : Machine ℕ
first_machine = start_game plain_ground (replicate 18 0) 0

abbrev history : List (Keys × Keys)
history = (right, shoot) ∷ (shoot, right) ∷ (right, right) ∷ []

match_agree_example :
    (match_from plain_ground history (first_machine, first_machine)).0
    ≡ (match_from plain_ground history (first_machine, first_machine)).1
unfolding start_game
match_agree_example = match_agree plain_ground history first_machine (record { size = refl })
