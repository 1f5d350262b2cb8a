-- ===== src/Spectator/Turns.antt =====
-- Half a turn of a picture.
use spectranet.Base.{
  ℕ, zero, suc, ◌+◌, ◌*◌, ◌<◌, ◌≤◌, ◌≡◌, refl, ap, ◌∙◌, arith, ℤ, pos, negsuc, pos_part, neg_part,
  sub_ℕ, ◌+ℤ◌, ◌-ℤ◌, ◌*ℤ◌, eq_of_parts, +ℤ_parts, -ℤ_parts, Option, none, some, List, [], ◌∷◌, map,
  get_elem?,
}
use mathlib.Core.Option
use spectranet.Spectator.Icons.{GfxLine, make_gfx_line}
use spectranet.Spectator.Rotate.{RotMat, rotation, neg, cut, rotate_line, rotate_gfx_lines}

abbrev minus : ℤ → ℤ
minus (pos zero) = pos 0
minus (pos (suc n)) = negsuc n
minus (negsuc n) = pos (suc n)

-- The place opposite to `x`, seen from `org`.
abbrev pub mirror : ℤ → ℤ → ℤ
mirror org x = minus (x -ℤ org) +ℤ org

abbrev pub mirror_line : ℤ → ℤ → GfxLine → GfxLine
mirror_line org_x org_y l =
    make_gfx_line (mirror org_x l.start_x) (mirror org_y l.start_y) (mirror org_x l.end_x)
      (mirror org_y l.end_y)

abbrev minus_mat : RotMat → RotMat
minus_mat m = record {
  x1y1 = minus m.x1y1;
  x2y1 = minus m.x2y1;
  x1y2 = minus m.x1y2;
  x2y2 = minus m.x2y2;
}

minus_parts : (a : ℤ) → (pos_part (minus a) ≡ neg_part a) × (neg_part (minus a) ≡ pos_part a)
minus_parts (pos zero) = (refl, refl)
minus_parts (pos (suc n)) = (refl, refl)
minus_parts (negsuc n) = (refl, refl)

minus-sub : (a b : ℕ) → sub_ℕ a b ≡ minus (sub_ℕ b a)
minus-sub a b =
    let p = minus_parts (sub_ℕ b a) in eq_of_parts (sub_ℕ a b) (minus (sub_ℕ b a)) (ground arith)

times_minus : (a b : ℤ) → a *ℤ minus b ≡ minus (a *ℤ b)
unfolding ◌*ℤ◌
times_minus a b =
    let (p, n) = minus_parts b in
    rw (p, n)
      (minus-sub (pos_part a * neg_part b + neg_part a * pos_part b)
        (pos_part a * pos_part b + neg_part a * neg_part b))

plus_minus : (a b : ℤ) → minus a +ℤ minus b ≡ minus (a +ℤ b)
unfolding ◌+ℤ◌
plus_minus a b =
    let (p, n) = minus_parts a in
    let (q, m) = minus_parts b in
    rw (p, n, q, m) (minus-sub (neg_part a + neg_part b) (pos_part a + pos_part b))

cut-minus : (a : ℤ) → cut (minus a) ≡ minus (cut a)
unfolding cut neg
cut-minus (pos zero) = refl
cut-minus (pos (suc n)) = ground arith
cut-minus (negsuc n) = ground arith

plus_and_back : (c org : ℤ) → (c +ℤ org) -ℤ org ≡ c
plus_and_back c org =
    let p = +ℤ_parts c org in
    let q = -ℤ_parts (c +ℤ org) org in eq_of_parts ((c +ℤ org) -ℤ org) c (omega arith)

-- A place that the opposite matrix gives is opposite to the one that the matrix gives.
opposite_place :
    (x y a b org : ℤ)
    → cut (x *ℤ minus a +ℤ y *ℤ minus b) +ℤ org ≡ mirror org (cut (x *ℤ a +ℤ y *ℤ b) +ℤ org)
opposite_place x y a b org =
    rw
      (
        times_minus x a,
        times_minus y b,
        plus_minus (x *ℤ a) (y *ℤ b),
        cut-minus (x *ℤ a +ℤ y *ℤ b),
        plus_and_back (cut (x *ℤ a +ℤ y *ℤ b)) org,
      )
      refl

rotate_line-minus_mat :
    (m : RotMat) (org_x org_y : ℤ) (l : GfxLine)
    → rotate_line (minus_mat m) org_x org_y l
      ≡ mirror_line org_x org_y (rotate_line m org_x org_y l)
unfolding rotate_line
rotate_line-minus_mat m org_x org_y l =
    let sx = l.start_x -ℤ org_x in
    let sy = l.start_y -ℤ org_y in
    let ex = l.end_x -ℤ org_x in
    let ey = l.end_y -ℤ org_y in
    rw
      (
        opposite_place sx sy m.x1y1 m.x1y2 org_x,
        opposite_place sx sy m.x2y1 m.x2y2 org_y,
        opposite_place ex ey m.x1y1 m.x1y2 org_x,
        opposite_place ex ey m.x2y1 m.x2y2 org_y,
      )
      refl

map-minus_mat :
    (m : RotMat) (org_x org_y : ℤ) (ls : List GfxLine)
    → map (rotate_line (minus_mat m) org_x org_y) ls
      ≡ map (mirror_line org_x org_y) (map (rotate_line m org_x org_y) ls)
map-minus_mat m org_x org_y [] = refl
map-minus_mat m org_x org_y (l ∷ ls) = rw (rotate_line-minus_mat m org_x org_y l) (
    ap (λ k. mirror_line org_x org_y (rotate_line m org_x org_y l) ∷ k)
      (map-minus_mat m org_x org_y ls))

half_table :
    (r : ℕ) → r < 8 → get_elem? rotation (8 + r) ≡ Option.map minus_mat (get_elem? rotation r)
half_table zero h = refl
half_table (suc zero) h = refl
half_table (suc (suc zero)) h = refl
half_table (suc (suc (suc zero))) h = refl
half_table (suc (suc (suc (suc zero)))) h = refl
half_table (suc (suc (suc (suc (suc zero))))) h = refl
half_table (suc (suc (suc (suc (suc (suc zero)))))) h = refl
half_table (suc (suc (suc (suc (suc (suc (suc zero))))))) h = refl
half_table (suc (suc (suc (suc (suc (suc (suc (suc r)))))))) h =
    let bad : 1 ≤ 0 = omega arith in elim bad [ ]

map_cases :
    (o : Option RotMat) (org_x org_y : ℤ) (ls : List GfxLine)
    → Option.map (λ m. map (rotate_line m org_x org_y) ls) (Option.map minus_mat o)
      ≡ Option.map
          (map (mirror_line org_x org_y))
          (Option.map (λ m. map (rotate_line m org_x org_y) ls) o)
map_cases none org_x org_y ls = refl
map_cases (some m) org_x org_y ls = ap some (map-minus_mat m org_x org_y ls)

-- A picture turned by half a turn more, around any origin, is the turned picture with each end of
-- each line mirrored at the origin, to the pixel: the cut to whole pixels treats both alike.
pub half_turn :
    (r : ℕ) (org_x org_y : ℤ) (ls : List GfxLine)
    → r < 8
    → rotate_gfx_lines ls (8 + r) org_x org_y
      ≡ Option.map (map (mirror_line org_x org_y)) (rotate_gfx_lines ls r org_x org_y)
unfolding rotate_gfx_lines
half_turn r org_x org_y ls h =
    ap (Option.map (λ m. map (rotate_line m org_x org_y) ls)) (half_table r h)
    ∙ map_cases (get_elem? rotation r) org_x org_y ls
