-- ===== src/Ctf/MapTiles/Load.antt =====
-- Reading the text of a map: loadMap and buildMapRow of server/map.c. The count numSpawns is left
-- out, since nothing that the program calls reads it.
pub mod Shape
use spectranet.Base.{
  ℕ, zero, suc, ◌+◌, ◌-◌, ◌*◌, ◌%◌, ℤ, pos, ◌-ℤ◌, ltb, leb, mod_ℤ, Bool, true, false, ◌&&◌, ◌||◌,
  if◌then◌else◌, ◌==◌, List, [], ◌∷◌, ◌++◌, length, set, replicate,
}
use spectranet.Ctf.Limits.{max_rows, max_cols}
use spectranet.Ctf.Types.{Maptile, MapXy}
use spectranet.Ctf.World.{World, GameMap, M, Act, pure, skip, fault, ◌>>=◌, ◌>>◌, gets, modify}
use spectranet.Ctf.Powerups.{add_powerup}
use spectranet.Ctf.MapTiles.{process_map_cmd}

unfoldable pub change_map : (GameMap → GameMap) → Act
change_map f = modify (λ w. record w { game_map = f w.game_map })

-- `(y-2) << 3` in the 16 bits of a coordinate.
abbrev pub above : ℕ → ℕ
above y = mod_ℤ (pos (8 * y) -ℤ pos 16) 65536

-- What a character at the column `i` of the row `y` is kept as besides a tile: a spawn point, the
-- place of a flag, or a power-up.
unfoldable pub note_place : ℕ → ℕ → ℕ → Act
unfolding ◌-ℤ◌
note_place i y c =
    if leb b'0' c && leb c b'9'
    then change_map (λ g. record g {
      spawnpoints =
          set g.spawnpoints (c - b'0') (record { mapx = 8 * i % 65536; mapy = 8 * y % 65536 });
    })
    else if c == b'a' || c == b'b'
    then change_map (λ g. record g {
      flagpoints = set g.flagpoints (c - b'a') (record { mapx = 8 * i % 65536; mapy = above y });
    })
    else if c == b'f' || c == b'g'
    then add_powerup (record { mapx = 8 * i % 65536; mapy = above y }) c
    else skip

-- The tile of a character; a spawn point's is the letter s.
abbrev pub tile_of : ℕ → ℕ → Maptile
tile_of i c = record { tile = if leb b'0' c && leb c b'9' then b's' else c; x = i }

-- The row from the column `i` on, of a text that ends with its line or its NUL; a `char` from 128
-- on is negative.
unfoldable pub row_from : ℕ → ℕ → List ℕ → M (List Maptile)
unfolding note_place
row_from i y [] = pure []
row_from i y (c ∷ cs) =
    if ltb i max_cols
    then note_place i y c
      >> (if ltb 32 c && ltb c 128
          then (do rest ← row_from (suc i) y cs; pure (tile_of i c ∷ rest))
          else if c == 13 || (c == 10 || c == 0)
          then pure []
          else row_from (suc i) y cs)
    else pure []

unfoldable pub build_map_row : List ℕ → ℕ → M (List Maptile)
unfolding row_from
build_map_row txtrow y = row_from 0 y txtrow

abbrev pub starred : List ℕ → Bool
starred [] = false
starred (c ∷ cs) = c == b'*'

-- A line of the file; a row behind the end of `maprow` is a fault.
unfoldable pub load_line : List ℕ → Act
unfolding build_map_row change_map
load_line txtrow =
    if starred txtrow
    then change_map (λ g. record g { spawndirs = process_map_cmd g.spawndirs txtrow })
    else (do
      row ← gets (λ w. length w.game_map.maprow)
      tiles ← build_map_row txtrow row
      if ltb row max_rows
          then change_map (λ g. record g { maprow = g.maprow ++ (tiles ∷ []) })
          else fault)

unfoldable pub load_lines : List (List ℕ) → Act
unfolding load_line
load_lines [] = skip
load_lines (txtrow ∷ more) = load_line txtrow >> load_lines more

-- `loadMap` on the lines of a file that could be opened.
unfoldable pub load_map : List (List ℕ) → Act
unfolding load_lines change_map ◌-ℤ◌
load_map lines =
    change_map (λ g. record g { maprow = []; spawndirs = replicate 10 0 })
    >> (load_lines lines >> change_map (λ g. record g { lastrow = pos (length g.maprow) -ℤ pos 1 }))
