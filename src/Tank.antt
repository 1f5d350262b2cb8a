-- ===== src/Tank.antt =====
-- The networked tank game for two, examples/tankgame/astg.c: the array that both machines keep, a
-- frame of each, and the exchange between them.
pub mod Lockstep
mod Tests
use spectranet.Base.{
  ℕ, zero, suc, ◌+◌, ◌*◌, ◌%◌, Bool, ◌&&◌, ◌||◌, List, [], ◌∷◌, if◌then◌else◌, get_elem?, set, ltb,
  ◌==◌, Option, none, some,
}

-- `PlayerRolle`: 1 is the host and 2 the client.
pub data Role : Type 0 where
  host client : Role

-- Places in `data`: row and column of each tank, row and column of the three bullets of each, and
-- the scores. A bullet in row 255 is not in flight.
abbrev pub posp1 : ℕ
posp1 = 0

abbrev pub posp2 : ℕ
posp2 = 2

abbrev pub bulletp1 : ℕ
bulletp1 = 4

abbrev pub bulletp2 : ℕ
bulletp2 = 10

abbrev pub score : ℕ
score = 16

-- What the game asks of the sprite library about the background of the screen.
pub record Background (S : Type 0) : Type 0 where
  pub screen_str : S → ℕ → ℕ → ℕ
  pub print_at_inv : S → ℕ → ℕ → ℕ → ℕ → S

-- The keys of the local player that are held down.
pub record Keys : Type 0 where
  pub right : Bool
  pub left : Bool
  pub fire : Bool

-- `data[i]`.
unfoldable pub cell : List ℕ → ℕ → ℕ
cell d i = elim (get_elem? d i) [ none ↦ 0 | some v ↦ v ]

-- A byte counts modulo 256.
abbrev pub incr : ℕ → ℕ
incr v = (v + 1) % 256

abbrev pub decr : ℕ → ℕ
decr v = (v + 255) % 256

-- `Init_data`.
unfoldable pub init_data : List ℕ → List ℕ
init_data d =
    let d = set (set (set d 4 255) 6 255) 8 255 in
    let d = set (set (set d 10 255) 12 255) 14 255 in
    let d = set (set d score 0) (score + 1) 0 in
    set (set (set (set d posp1 2) (posp1 + 1) 9) posp2 21) (posp2 + 1) 14

abbrev pub bullets_of : Role → ℕ
bullets_of host = bulletp1
bullets_of client = bulletp2

abbrev pub tank_of : Role → ℕ
tank_of host = posp1
tank_of client = posp2

-- The row in front of a tank.
abbrev pub muzzle : Role → ℕ → ℕ
muzzle host row = incr row
muzzle client row = decr row

-- The search of `fire_bullet` from bullet `i` on: the first that is not in flight is placed.
unfoldable pub fire_from : ℕ → ℕ → Role → List ℕ → List ℕ
unfolding cell
fire_from zero i r d = d
fire_from (suc rounds) i r d =
    let rest = fire_from rounds (suc i) r d in
    let j = bullets_of r + i + i in
    if cell d j == 255
    then (let d' = set d (j + 1) (cell d (tank_of r + 1)) in
        set d' j (muzzle r (cell d' (tank_of r))))
    else rest

unfoldable pub fire_bullet : Role → List ℕ → List ℕ
unfolding fire_from
fire_bullet r d = fire_from 3 0 r d

-- `read_keys`: the tank stays in the columns 1 to 22.
unfoldable pub read_keys : Role → Keys → List ℕ → List ℕ
unfolding cell fire_bullet
read_keys r k d =
    let x = tank_of r + 1 in
    if k.right
    then (if ltb (cell d x) 22 then set d x (incr (cell d x)) else d)
    else if k.left
    then (if ltb 1 (cell d x) then set d x (decr (cell d x)) else d)
    else if k.fire
    then fire_bullet r d
    else d

-- One bullet of `procesa_juego`: one at an end of the field is taken away, and the player's own
-- bullets move on.
unfoldable pub move_bullet : Role → ℕ → List ℕ → List ℕ
unfolding cell
move_bullet r n d =
    let j = bulletp1 + (n + n) in
    if cell d j == 255
    then d
    else if (cell d j == 22) || (cell d j == 1)
    then set d j 255
    else elim r [
      | host ↦ if ltb n 3 then set d j (incr (cell d j)) else d
      | client ↦ if ltb n 3 then d else set d j (decr (cell d j))
    ]

unfoldable pub procesa_juego : Role → List ℕ → List ℕ
unfolding move_bullet
procesa_juego r d =
    move_bullet r 5
      (move_bullet r 4 (move_bullet r 3 (move_bullet r 2 (move_bullet r 1 (move_bullet r 0 d)))))

-- `data[i] = netb[i]` for a run of places.
unfoldable pub copy_cells : ℕ → ℕ → List ℕ → List ℕ → List ℕ
unfolding cell
copy_cells i zero netb d = d
copy_cells i (suc n) netb d = copy_cells (suc i) n netb (set d i (cell netb i))

-- `intercambia_info` after the exchange: the other player's bullets, tank and score are taken over.
unfoldable pub take_over : Role → List ℕ → List ℕ → List ℕ
unfolding copy_cells
take_over host netb d =
    copy_cells (score + 1) 1 netb (copy_cells posp2 2 netb (copy_cells bulletp2 6 netb d))
take_over client netb d =
    copy_cells score 1 netb (copy_cells posp1 2 netb (copy_cells bulletp1 6 netb d))

-- A machine: its array, its winner and the background of its screen.
pub record Machine (S : Type 0) : Type 0 where
  pub cells : List ℕ
  pub winner : ℕ
  pub screen : S

-- A bullet over a barrier is taken away, and the barrier with it.
unfoldable pub hit_barrier : {S : Type 0} → Background S → ℕ → Machine S → Machine S
unfolding cell
hit_barrier bg n m =
    let j = bulletp1 + (n + n) in
    let row = cell m.cells j in
    let col = cell m.cells (j + 1) in
    if bg.screen_str m.screen row col == 1155
    then record m { cells = set m.cells j 255; screen = bg.print_at_inv m.screen row col 7 32 }
    else m

-- A bullet in the place of a tank is taken away, and the place of the score counts.
unfoldable pub hit_tank : ℕ → ℕ → ℕ → List ℕ → List ℕ
unfolding cell
hit_tank n tank place d =
    let j = bulletp1 + (n + n) in
    if (cell d j == cell d tank) && (cell d (j + 1) == cell d (tank + 1))
    then (let d' = set d j 255 in set d' place (incr (cell d' place)))
    else d

-- One bullet of `procesa_resultado`.
unfoldable pub check_bullet : {S : Type 0} → Background S → ℕ → Machine S → Machine S
unfolding cell hit_barrier hit_tank
check_bullet bg n m =
    if cell m.cells (bulletp1 + (n + n)) == 255
    then m
    else (let m' = hit_barrier bg n m in
        record m' { cells = hit_tank n posp2 score (hit_tank n posp1 (score + 1) m'.cells) })

-- The winner, from the scores.
unfoldable pub judge : {S : Type 0} → Machine S → Machine S
unfolding cell
judge m =
    if cell m.cells score == 3
    then record m { winner = 1 }
    else if cell m.cells (score + 1) == 3
    then record m { winner = 2 }
    else m

unfoldable pub procesa_resultado : {S : Type 0} → Background S → Machine S → Machine S
unfolding check_bullet judge
procesa_resultado bg m = judge (
    check_bullet bg 5 (
      check_bullet bg 4
        (check_bullet bg 3 (check_bullet bg 2 (check_bullet bg 1 (check_bullet bg 0 m))))))

-- The barriers at the start of a game, as rows and columns.
abbrev pub barriers : List (ℕ × ℕ)
barriers =
    (9, 1)
    ∷ (14, 2)
    ∷ (9, 5)
    ∷ (14, 6)
    ∷ (9, 9)
    ∷ (14, 10)
    ∷ (9, 13)
    ∷ (14, 14)
    ∷ (9, 17)
    ∷ (14, 18)
    ∷ (9, 21)
    ∷ (14, 22)
    ∷ []

unfoldable pub draw_barriers : {S : Type 0} → Background S → List (ℕ × ℕ) → S → S
draw_barriers bg [] s = s
draw_barriers bg ((row, col) ∷ l) s = draw_barriers bg l (bg.print_at_inv s row col 4 0x83)

-- A machine at the start of a game.
unfoldable pub start_game : {S : Type 0} → Background S → List ℕ → S → Machine S
unfolding init_data draw_barriers
start_game bg d s = record { cells = init_data d; winner = 0; screen = draw_barriers bg barriers s }

-- What a machine does before it sends its array.
unfoldable pub play : {S : Type 0} → Role → Keys → Machine S → Machine S
unfolding read_keys procesa_juego
play r k m = record m { cells = procesa_juego r (read_keys r k m.cells) }

-- A turn of the main loop on both machines: each plays, each gets the array of the other whole, and
-- each works out the result.
unfoldable pub turn :
    {S : Type 0} → Background S → Keys → Keys → Machine S × Machine S → Machine S × Machine S
turn bg kh kc (h, c) =
    let h' = play host kh h in
    let c' = play client kc c in
    (
      procesa_resultado bg (record h' { cells = take_over host c'.cells h'.cells }),
      procesa_resultado bg (record c' { cells = take_over client h'.cells c'.cells }),
    )

-- `run_game`'s loop, while there is no winner; a machine that has one leaves it.
unfoldable pub match_from :
    {S : Type 0} → Background S → List (Keys × Keys) → Machine S × Machine S → Machine S × Machine S
unfolding turn
match_from bg [] p = p
match_from bg ((kh, kc) ∷ ks) (h, c) =
    let rest = match_from bg ks (turn bg kh kc (h, c)) in
    if (h.winner == 0) && (c.winner == 0) then rest else (h, c)
