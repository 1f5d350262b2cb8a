-- ===== src/Ctf/MapTiles.antt =====
-- The map of server/map.c: reading its rows, the tiles that a client is sent, and collisions.
pub mod Load
use spectranet.Base.{
  ℕ, zero, suc, ◌+◌, ◌-◌, ◌*◌, ◌^◌, ℤ, pos, negsuc, ◌+ℤ◌, ltb_ℤ, shr_ℤ, mod_ℤ, Bool, true, false,
  ◌&&◌, ◌||◌, Option, none, some, List, [], ◌∷◌, if◌then◌else◌, get_elem?, set, ltb, leb, ◌==◌,
}
use spectranet.Ctf.Types.{Object, Maptile}
use spectranet.Ctf.World.{GameMap, M, pure, ◌>>=◌, gets, deref}
use spectranet.Ctf.Flags.{is_flag}

-- `cmd[2]` and on of a spawn direction command: digits 0 to 3, four directions each, into the
-- first ten entries.
unfoldable pub spawn_dirs_from : ℕ → List ℕ → List ℕ → List ℕ
spawn_dirs_from i dirs [] = dirs
spawn_dirs_from i dirs (c ∷ cs) =
    let rest = spawn_dirs_from (suc i) (set dirs i ((c - b'0') * 4)) cs in
    if leb b'0' c && (ltb c b'4' && ltb i 10) then rest else dirs

-- `processMapCmd` on the text of the line, whose first byte is the star.
unfoldable pub process_map_cmd : List ℕ → List ℕ → List ℕ
unfolding spawn_dirs_from
process_map_cmd dirs (star ∷ c ∷ cs) = if c == b'd' then spawn_dirs_from 0 dirs cs else dirs
process_map_cmd dirs _ = dirs

-- `unsigned long`.
abbrev pub u64 : ℤ → ℕ
u64 a = mod_ℤ a (2 ^ 64)

-- Whether a tile blocks an object: its letter is a capital, and it overlaps the object's 16
-- pixels horizontally.
unfoldable pub tile_hits : ℤ → Maptile → Bool
unfolding ◌+ℤ◌
tile_hits x t =
    (leb b'A' t.tile && leb t.tile b'Z')
    && ((leb (u64 x) (t.x * 128) && leb (t.x * 128) (u64 (x +ℤ pos 256)))
        || (leb (u64 x) (t.x * 128 + 128) && leb (t.x * 128 + 128) (u64 (x +ℤ pos 256))))

-- The tiles of a row, from left to right, up to the first beyond the object.
unfoldable pub row_hits : ℤ → List Maptile → Bool
unfolding tile_hits ◌+ℤ◌
row_hits x [] = false
row_hits x (t ∷ ts) =
    let rest = row_hits x ts in
    if ltb (u64 (x +ℤ pos 256)) (t.x * 128) then false else if tile_hits x t then true else rest

-- The rows that an object at the height touches, from row `objy` on; `none` is a row outside the
-- map's array, or that the fuel ran out.
unfoldable pub rows_hit : ℕ → GameMap → ℤ → ℤ → ℕ → Option Bool
unfolding row_hits ◌+ℤ◌
rows_hit zero g x y objy = none
rows_hit (suc fuel) g x y objy =
    let rest = rows_hit fuel g x y (suc objy) in
    if ltb_ℤ g.lastrow (pos objy) then some false else elim (get_elem? g.maprow objy) [
      | none ↦ none
      | some row ↦
          if row_hits x row
          then some true
          else if ltb_ℤ (pos (suc objy * 128)) (y +ℤ pos 256)
          then rest
          else some false
    ]

-- At most four rows are looked at. A negative row is outside the array, which `moveObject` rules
-- out.
unfoldable pub rows_from : GameMap → ℤ → ℤ → ℤ → Option Bool
unfolding rows_hit
rows_from g x y (pos objy) = rows_hit 4 g x y objy
rows_from g x y (negsuc n) = none

-- Detect collisions with the map; a flag has none.
unfoldable pub detect_map_collision : Object → M Bool
detect_map_collision obj =
    if is_flag obj.type
    then pure false
    else do g ← gets (λ w. w.game_map); deref (rows_from g obj.x obj.y (shr_ℤ obj.y 7))
