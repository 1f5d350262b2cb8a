-- ===== src/Spectator/Rotate.antt =====
-- Turning a picture: the table `rotation` and rotateGfxLines of spectator/gfx.c. The entries of the
-- table, which have three decimals, stand in thousandths. The C code works with doubles and cuts to
-- an `int`; for coordinates of up to 40 that is the exact value cut towards 0, as it is here.
use spectranet.Base.{
  ℕ, suc, ◌-◌, ◌/◌, ◌==◌, if◌then◌else◌, ℤ, pos, negsuc, ◌+ℤ◌, ◌-ℤ◌, ◌*ℤ◌, Option, List, [], ◌∷◌,
  map, get_elem?,
}
use mathlib.Core.Option
use spectranet.Spectator.Icons.{GfxLine, make_gfx_line}

pub record RotMat : Type 0 where
  pub x1y1 : ℤ
  pub x2y1 : ℤ
  pub x1y2 : ℤ
  pub x2y2 : ℤ

abbrev mat : ℤ → ℤ → ℤ → ℤ → RotMat
mat a b c d = record { x1y1 = a; x2y1 = b; x1y2 = c; x2y2 = d }

-- `rotation`, in sixteenths of a turn.
abbrev pub rotation : List RotMat
rotation =
    mat (pos 1000) (pos 0) (pos 0) (pos 1000)
    ∷ mat (pos 924) (pos 383) (negsuc 382) (pos 924)
    ∷ mat (pos 707) (pos 707) (negsuc 706) (pos 707)
    ∷ mat (pos 383) (pos 924) (negsuc 923) (pos 383)
    ∷ mat (pos 0) (pos 1000) (negsuc 999) (pos 0)
    ∷ mat (negsuc 382) (pos 924) (negsuc 923) (negsuc 382)
    ∷ mat (negsuc 706) (pos 707) (negsuc 706) (negsuc 706)
    ∷ mat (negsuc 923) (pos 383) (negsuc 382) (negsuc 923)
    ∷ mat (negsuc 999) (pos 0) (pos 0) (negsuc 999)
    ∷ mat (negsuc 923) (negsuc 382) (pos 383) (negsuc 923)
    ∷ mat (negsuc 706) (negsuc 706) (pos 707) (negsuc 706)
    ∷ mat (negsuc 382) (negsuc 923) (pos 924) (negsuc 382)
    ∷ mat (pos 0) (negsuc 999) (pos 1000) (pos 0)
    ∷ mat (pos 383) (negsuc 923) (pos 924) (pos 383)
    ∷ mat (pos 707) (negsuc 706) (pos 707) (pos 707)
    ∷ mat (pos 924) (negsuc 382) (pos 383) (pos 924)
    ∷ []

unfoldable pub neg : ℕ → ℤ
neg k = if k == 0 then pos 0 else negsuc (k - 1)

-- The whole part of a number of thousandths, cut towards 0.
unfoldable pub cut : ℤ → ℤ
unfolding neg
cut (pos n) = pos (n / 1000)
cut (negsuc n) = neg (suc n / 1000)

unfoldable pub rotate_line : RotMat → ℤ → ℤ → GfxLine → GfxLine
unfolding cut ◌+ℤ◌ ◌-ℤ◌ ◌*ℤ◌
rotate_line m org_x org_y l =
    let sx = l.start_x -ℤ org_x in
    let sy = l.start_y -ℤ org_y in
    let ex = l.end_x -ℤ org_x in
    let ey = l.end_y -ℤ org_y in
    make_gfx_line (cut (sx *ℤ m.x1y1 +ℤ sy *ℤ m.x1y2) +ℤ org_x)
      (cut (sx *ℤ m.x2y1 +ℤ sy *ℤ m.x2y2) +ℤ org_y) (cut (ex *ℤ m.x1y1 +ℤ ey *ℤ m.x1y2) +ℤ org_x)
      (cut (ex *ℤ m.x2y1 +ℤ ey *ℤ m.x2y2) +ℤ org_y)

-- All lines of a picture, turned around an origin; `none` reads behind the table.
unfoldable pub rotate_gfx_lines : List GfxLine → ℕ → ℤ → ℤ → Option (List GfxLine)
unfolding rotate_line
rotate_gfx_lines l rotindex org_x org_y =
    Option.map (λ m. map (rotate_line m org_x org_y) l) (get_elem? rotation rotindex)
