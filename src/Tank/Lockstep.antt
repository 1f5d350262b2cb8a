-- ===== src/Tank/Lockstep.antt =====
-- Both machines show the same game.
use spectranet.Base.{
  ℕ, zero, suc, ◌+◌, ◌≤◌, ◌<◌, ◌≡◌, refl, sym, subst, ◌∙◌, arith, Bool, true, false, Bool-cases,
  inl, inr, List, [], ◌∷◌, ◌&&◌, ◌||◌, length, set, if◌then◌else◌, ◌==◌, ltb, leb, length-set,
}
use spectranet.Tank.{
  Role, host, client, Background, Keys, Machine, cell, copy_cells, take_over, play, turn,
  match_from, procesa_resultado, procesa_juego, read_keys, fire_bullet, fire_from, move_bullet,
  check_bullet, hit_barrier, hit_tank, judge,
}

-- The array of a machine.
pub record IsArray (d : List ℕ) : Type 0 where
  pub size : length d ≡ 18

pub set-IsArray : (d : List ℕ) (i v : ℕ) → IsArray d → IsArray (set d i v)
set-IsArray d i v a = record { size = length-set d i v ∙ a.size }

pub if-IsArray : (b : Bool) (d d' : List ℕ) → IsArray d → IsArray d' → IsArray (if b then d else d')
if-IsArray true d d' a a' = a
if-IsArray false d d' a a' = a'

ruleset array_rules = (set-IsArray, if-IsArray)

fire_from-IsArray :
    (rounds i : ℕ) (r : Role) (d : List ℕ) → IsArray d → IsArray (fire_from rounds i r d)
unfolding fire_from
fire_from-IsArray zero i r d a = a
fire_from-IsArray (suc rounds) i r d a =
    if-IsArray _ _ _ (set-IsArray _ _ _ (set-IsArray d _ _ a))
      (fire_from-IsArray rounds (suc i) r d a)

read_keys-IsArray : (r : Role) (k : Keys) (d : List ℕ) → IsArray d → IsArray (read_keys r k d)
unfolding read_keys fire_bullet
read_keys-IsArray r k d a = search (array_rules, fire_from-IsArray) depth 9

move_bullet-IsArray : (r : Role) (n : ℕ) (d : List ℕ) → IsArray d → IsArray (move_bullet r n d)
unfolding move_bullet
move_bullet-IsArray host n d a = search array_rules depth 9
move_bullet-IsArray client n d a = search array_rules depth 9

pub play-IsArray :
    {S : Type 0} (r : Role) (k : Keys) (m : Machine S)
    → IsArray m.cells
    → IsArray (play r k m).cells
unfolding play procesa_juego
play-IsArray r k m a = search (move_bullet-IsArray, read_keys-IsArray) depth 20

copy_cells-IsArray : (i n : ℕ) (netb d : List ℕ) → IsArray d → IsArray (copy_cells i n netb d)
unfolding copy_cells
copy_cells-IsArray i zero netb d a = a
copy_cells-IsArray i (suc n) netb d a = copy_cells-IsArray (suc i) n netb _ (set-IsArray d i _ a)

pub take_over-IsArray : (r : Role) (netb d : List ℕ) → IsArray d → IsArray (take_over r netb d)
unfolding take_over
take_over-IsArray host netb d a = search copy_cells-IsArray depth 9
take_over-IsArray client netb d a = search copy_cells-IsArray depth 9

hit_tank-IsArray : (n t p : ℕ) (d : List ℕ) → IsArray d → IsArray (hit_tank n t p d)
unfolding hit_tank
hit_tank-IsArray n t p d a = search array_rules depth 9

if_machine-IsArray :
    {S : Type 0} (b : Bool) (m m' : Machine S)
    → IsArray m.cells
    → IsArray m'.cells
    → IsArray (if b then m else m').cells
if_machine-IsArray true m m' a a' = a
if_machine-IsArray false m m' a a' = a'

hit_barrier-IsArray :
    {S : Type 0} (bg : Background S) (n : ℕ) (m : Machine S)
    → IsArray m.cells
    → IsArray (hit_barrier bg n m).cells
unfolding hit_barrier
hit_barrier-IsArray bg n m a = if_machine-IsArray _ _ m (set-IsArray m.cells _ 255 a) a

pub cell-set :
    (d : List ℕ) (i v k : ℕ) → i < length d → cell (set d i v) k ≡ (if i == k then v else cell d k)
unfolding cell
cell-set [] i v k h = elim h [ ]
cell-set (x ∷ d) zero v zero h = refl
cell-set (x ∷ d) zero v (suc k) h = ground arith
cell-set (x ∷ d) (suc i) v zero h = ground arith
cell-set (x ∷ d) (suc i) v (suc k) h = ground (arith, cell-set d i v k (omega arith))

cell-copy_cells :
    (i n : ℕ) (netb d : List ℕ) (k : ℕ)
    → IsArray d
    → i + n ≤ 18
    → cell (copy_cells i n netb d) k ≡ (if leb i k && ltb k (i + n) then cell netb k else cell d k)
unfolding copy_cells
cell-copy_cells i zero netb d k a h = ground arith
cell-copy_cells i (suc n) netb d k a h = ground (
  arith,
  cell-copy_cells (suc i) n netb (set d i (cell netb i)) k (set-IsArray d i _ a) (omega arith),
  cell-set d i (cell netb i) k (omega (arith, a.size)),
)

same_cells : (d d' : List ℕ) → length d ≡ length d' → ((k : ℕ) → cell d k ≡ cell d' k) → d ≡ d'
unfolding cell
same_cells [] [] e h = refl
same_cells [] (y ∷ d') e h = let bad : 1 ≤ 0 = omega arith in elim bad [ ]
same_cells (x ∷ d) [] e h = let bad : 1 ≤ 0 = omega arith in elim bad [ ]
same_cells (x ∷ d) (y ∷ d') e h = cc (h 0, same_cells d d' (omega arith) (λ k. h (suc k)))

beyond : (d : List ℕ) (k : ℕ) → length d ≤ k → cell d k ≡ 0
unfolding cell
beyond [] k h = refl
beyond (x ∷ d) zero h = let bad : 1 ≤ 0 = omega arith in elim bad [ ]
beyond (x ∷ d) (suc k) h = beyond d k (omega arith)

below : (k : ℕ) → ltb k 18 ≡ true → k < 18
below k h = ground arith

past : (d : List ℕ) (k : ℕ) → IsArray d → ltb k 18 ≡ false → length d ≤ k
past d k a h = ground (arith, a.size)

-- The places of the client's tank, bullets and score.
abbrev client_owns : ℕ → Bool
client_owns k = (leb 10 k && ltb k 16) || (leb 2 k && ltb k 4) || (k == 17)

host_takes :
    (h c : List ℕ) (k : ℕ)
    → IsArray h
    → cell (take_over host c h) k ≡ (if client_owns k then cell c k else cell h k)
unfolding take_over
host_takes h c k a =
    let a1 = copy_cells-IsArray 10 6 c h a in
    let a2 = copy_cells-IsArray 2 2 c _ a1 in
    ground (
      arith,
      cell-copy_cells 17 1 c (copy_cells 2 2 c (copy_cells 10 6 c h)) k a2 (omega arith),
      cell-copy_cells 2 2 c (copy_cells 10 6 c h) k a1 (omega arith),
      cell-copy_cells 10 6 c h k a (omega arith),
    )

owned :
    (k x y : ℕ)
    → k < 18
    → (if leb 16 k && ltb k 17
        then x
        else if leb 0 k && ltb k 2
        then x
        else if leb 4 k && ltb k 10
        then x
        else y)
      ≡ (if client_owns k then y else x)
owned k x y lt = ground arith

client_takes_in :
    (h c : List ℕ) (k : ℕ)
    → IsArray c
    → k < 18
    → cell (take_over client h c) k ≡ (if client_owns k then cell c k else cell h k)
unfolding take_over
client_takes_in h c k a lt =
    let a1 = copy_cells-IsArray 4 6 h c a in
    let a2 = copy_cells-IsArray 0 2 h _ a1 in
    rw
      (
        cell-copy_cells 16 1 h (copy_cells 0 2 h (copy_cells 4 6 h c)) k a2 (omega arith),
        cell-copy_cells 0 2 h (copy_cells 4 6 h c) k a1 (omega arith),
        cell-copy_cells 4 6 h c k a (omega arith),
      )
      (owned k (cell h k) (cell c k) lt)

-- Each machine takes over what the other owns, so that after the exchange both have the same array.
pub take_over_agree :
    (h c : List ℕ) → IsArray h → IsArray c → take_over host c h ≡ take_over client h c
take_over_agree h c ah ac =
    let sh = take_over-IsArray host c h ah in
    let sc = take_over-IsArray client h c ac in
    same_cells _ _ (sh.size ∙ sym sc.size) (λ k. elim (Bool-cases (ltb k 18)) [
      | inl inside ↦ host_takes h c k ah ∙ sym (client_takes_in h c k ac (below k inside))
      | inr outside ↦ beyond _ k (past _ k sh outside) ∙ sym (beyond _ k (past _ k sc outside))
    ])

-- If the machines show the same background and the same winner, they are in the same state after a
-- turn, whatever the arrays were and whatever keys are held down.
turn_agree :
    {S : Type 0} (bg : Background S) (kh kc : Keys) (h c : Machine S)
    → IsArray h.cells
    → IsArray c.cells
    → h.winner ≡ c.winner
    → h.screen ≡ c.screen
    → (turn bg kh kc (h, c)).0 ≡ (turn bg kh kc (h, c)).1
unfolding turn play
turn_agree bg kh kc h c ah ac ew es =
    rw
      (
        take_over_agree (play host kh h).cells (play client kc c).cells (play-IsArray host kh h ah)
            (play-IsArray client kc c ac),
        ew,
        es,
      )
      refl

check_bullet-IsArray :
    {S : Type 0} (bg : Background S) (n : ℕ) (m : Machine S)
    → IsArray m.cells
    → IsArray (check_bullet bg n m).cells
unfolding check_bullet
check_bullet-IsArray bg n m a =
    if_machine-IsArray _ m _ a
      (hit_tank-IsArray n 2 16 _ (hit_tank-IsArray n 0 17 _ (hit_barrier-IsArray bg n m a)))

judge-IsArray : {S : Type 0} (m : Machine S) → IsArray m.cells → IsArray (judge m).cells
unfolding judge
judge-IsArray m a =
    if_machine-IsArray (cell m.cells 16 == 3) (record m { winner = 1 })
      (if cell m.cells 17 == 3 then record m { winner = 2 } else m) a
      (if_machine-IsArray (cell m.cells 17 == 3) (record m { winner = 2 }) m a a)

pub procesa_resultado-IsArray :
    {S : Type 0} (bg : Background S) (m : Machine S)
    → IsArray m.cells
    → IsArray (procesa_resultado bg m).cells
unfolding procesa_resultado
procesa_resultado-IsArray bg m a = search (judge-IsArray, check_bullet-IsArray) depth 20

turn-IsArray :
    {S : Type 0} (bg : Background S) (kh kc : Keys) (m : Machine S)
    → IsArray m.cells
    → IsArray (turn bg kh kc (m, m)).0.cells
unfolding turn
turn-IsArray bg kh kc m a =
    procesa_resultado-IsArray bg _ (take_over-IsArray host _ _ (play-IsArray host kh m a))

-- Two machines that are in the same state, with an array of 18 bytes, are in the same state whenever
-- the loop stops, whatever keys the two players hold down in each turn: they show the same positions,
-- the same scores, the same barriers and the same winner.
pub match_agree :
    {S : Type 0} (bg : Background S) (ks : List (Keys × Keys)) (m : Machine S)
    → IsArray m.cells
    → (match_from bg ks (m, m)).0 ≡ (match_from bg ks (m, m)).1
unfolding match_from
match_agree bg [] m a = refl
match_agree bg ((kh, kc) ∷ ks) m a = elim (Bool-cases ((m.winner == 0) && (m.winner == 0))) [
  | inl goes_on ↦
      let same = turn_agree bg kh kc m m a a refl refl in
      let ih = match_agree bg ks (turn bg kh kc (m, m)).0 (turn-IsArray bg kh kc m a) in
      rw goes_on (
        subst
          (λ c.
            (match_from bg ks ((turn bg kh kc (m, m)).0, c)).0
            ≡ (match_from bg ks ((turn bg kh kc (m, m)).0, c)).1)
          same ih)
  | inr over ↦ rw over refl
]
