-- ===== src/Spectator/Map.antt =====
-- The map behind the sprites: loadMap, drawMap and drawMapRow of spectator/map.c, and drawMapBox,
-- drawMapIcon and drawViewportGrid of spectator/gfx.c, for the scale factor 1.
use spectranet.Base.{
  ℕ, zero, suc, ◌+◌, ◌-◌, ◌*◌, ◌==◌, ltb, leb, if◌then◌else◌, pos, ◌&&◌, ◌||◌, Option, none, some,
  List, [], ◌∷◌, ◌++◌, map, length, ◌>>=◌,
}
use spectranet.Spectator.Icons.{spawn_place, flag_place, ammo_place, fuel_place}
use spectranet.Spectator.Draw.{Shape, line, outline, make_colour, picture}

-- What `fgets` reads from the file, line by line: those that start with `*` are comments.
unfoldable pub load_map : List (List ℕ) → List (List ℕ)
load_map [] = []
load_map ([] ∷ ls) = [] ∷ load_map ls
load_map ((c ∷ l) ∷ ls) = if c == b'*' then load_map ls else (c ∷ l) ∷ load_map ls

unfoldable pub draw_map_box : ℕ → ℕ → List Shape
draw_map_box x y =
    outline (pos (x * 16)) (pos (y * 16)) (pos (x * 16 + 16)) (pos (y * 16 + 16))
      (make_colour 0 0 255)
    ∷ []

unfoldable pub draw_map_icon : ℕ → ℕ → ℕ → ℕ → Option (List Shape)
unfolding picture
draw_map_icon x y iconid colourid = picture iconid colourid (pos (x * 16)) (pos (y * 16))

-- `CLR_TEAM1`, `CLR_TEAM2` and `CLR_NEUTRAL`.
abbrev clr_team1 : ℕ
clr_team1 = 2

abbrev clr_team2 : ℕ
clr_team2 = 5

abbrev clr_neutral : ℕ
clr_neutral = 6

-- A character of the map at its column and row.
unfoldable pub draw_map_char : ℕ → ℕ → ℕ → Option (List Shape)
unfolding draw_map_box draw_map_icon
draw_map_char i row c =
    if c == b'B'
    then some (draw_map_box i row)
    else if c == b'a'
    then draw_map_icon i row flag_place clr_team2
    else if c == b'b'
    then draw_map_icon i row flag_place clr_team1
    else if c == b'f'
    then draw_map_icon i row fuel_place clr_neutral
    else if c == b'g'
    then draw_map_icon i row ammo_place clr_neutral
    else if leb b'0' c && leb c b'9'
    then draw_map_icon i row spawn_place (if ltb c b'2' then clr_team2 else clr_team1)
    else some []

-- A row from column `i` on; the text of a row ends by its NUL, or behind `MAXCOLS` columns.
unfoldable pub draw_map_row : ℕ → ℕ → List ℕ → Option (List Shape)
unfolding draw_map_char
draw_map_row i row [] = some []
draw_map_row i row (c ∷ cs) =
    let more = draw_map_row (i + 1) row cs in
    if leb 1024 i || (c == 0)
    then some []
    else (do here ← draw_map_char i row c; rest ← more; some (here ++ rest))

-- The loop of `drawMap`, which ends at the row that has none behind it.
unfoldable pub draw_map_rows : ℕ → List (List ℕ) → Option (List Shape)
unfolding draw_map_row
draw_map_rows row [] = some []
draw_map_rows row (r ∷ []) = some []
draw_map_rows row (r ∷ s ∷ rs) = do
  here ← draw_map_row 0 row r
  rest ← draw_map_rows (row + 1) (s ∷ rs)
  some (here ++ rest)

-- The places of the grid's lines, `by` apart, below `limit`, as many as `fuel` at most.
unfoldable pub grid_from : ℕ → ℕ → ℕ → ℕ → List ℕ
grid_from zero i limit by = []
grid_from (suc fuel) i limit by =
    let rest = grid_from fuel (i + by) limit by in if ltb i limit then i ∷ rest else []

-- The grid of screens of `w` by `h` on a background of `width` by `height`, which is higher than
-- 100.
unfoldable pub draw_viewport_grid : ℕ → ℕ → ℕ → ℕ → List Shape
unfolding grid_from
draw_viewport_grid width height w h =
    map (λ i. line (pos i) (pos 0) (pos i) (pos (height - 100)) (make_colour 32 32 32))
      (grid_from width 0 width w)
    ++ map (λ i. line (pos 0) (pos i) (pos width) (pos i) (make_colour 32 32 32))
        (grid_from (height - 100) 0 (height - 100) h)

-- `drawMap` on the background that `loadMap` makes, whose width is that of the first row with its
-- line end; `none` without a row, whose text `loadMap` then reads.
unfoldable pub draw_map : List (List ℕ) → Option (List Shape)
unfolding draw_viewport_grid draw_map_rows
draw_map [] = none
draw_map (r ∷ rs) = do
  rows ← draw_map_rows 0 (r ∷ rs)
  some (draw_viewport_grid (length r * 16) (length (r ∷ rs) * 16 + 90) 448 368 ++ rows)
