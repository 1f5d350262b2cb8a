-- ===== src/Ctf/Client/Sprites/Tiles.antt =====
-- The map that the server sends for a viewport, as the client draws it.
use spectranet.Base.{
  ℕ, suc, ◌+◌, ◌-◌, ◌*◌, ◌/◌, ◌%◌, ◌≤◌, ◌≡◌, refl, ap, sym, ◌∙◌, arith, leb, ltb, true, false, ◌&&◌,
  if◌then◌else◌, Bool-cases, inl, inr, some, List, [], ◌∷◌, ◌++◌, append_assoc, append-nil, map,
  length, length-append, drop, get_elem?, le16,
}
use spectranet.Ctf.Msg
use spectranet.Ctf.Types.{Maptile, Viewport}
use spectranet.Ctf.World.{World, gets, deref, pure, ◌>>=◌}
use spectranet.Ctf.Matchmake.{send_dropped}
use spectranet.Ctf.View.{row_tiles, map_rows, rows_end, send_map_msg}
use spectranet.Ctf.MapTiles.Load.Shape.{Ascending}
use spectranet.Ctf.Client.Sprites.{tile_colour, draw_tiles, draw_map}

-- A tile on the screen: row, column and character.
abbrev pub Spot : Type 0
Spot = ℕ × ℕ × ℕ

-- The tiles of a row that stand from the column `minx` on and before `maxx`.
unfoldable pub row_spots : ℕ → ℕ → ℕ → List Maptile → List Spot
row_spots minx maxx dy [] = []
row_spots minx maxx dy (t ∷ ts) =
    if leb minx t.x && ltb t.x maxx
    then (dy, t.x - minx, t.tile) ∷ row_spots minx maxx dy ts
    else row_spots minx maxx dy ts

-- Those of rows that are shown from the row `dy` of the screen on.
unfoldable pub map_spots : ℕ → ℕ → ℕ → List (List Maptile) → List Spot
map_spots minx maxx dy [] = []
map_spots minx maxx dy (r ∷ rs) = row_spots minx maxx dy r ++ map_spots minx maxx (suc dy) rs

-- What is printed for a tile.
unfoldable pub painted : Spot → ℕ × ℕ × ℕ × ℕ
unfolding tile_colour
painted (y, x, tile) = (y, x, tile_colour tile, tile)

-- The map has these rows from `y` on, none of them empty, and each in order, as the loader leaves
-- them.
unfoldable pub HasRows : List (List Maptile) → ℕ → List (List Maptile) → Type 0
HasRows maprow y [] = Unit
HasRows maprow y (r ∷ rs) =
    (get_elem? maprow y ≡ some r) × (1 ≤ length r) × Ascending 0 r × HasRows maprow (suc y) rs

unfoldable pub spots_bytes : List Spot → List ℕ
spots_bytes [] = []
spots_bytes ((y, x, tile) ∷ l) = tile ∷ x ∷ y ∷ spots_bytes l

length-spots_bytes : (l : List Spot) → length (spots_bytes l) ≡ 3 * length l
unfolding spots_bytes
length-spots_bytes [] = refl
length-spots_bytes ((y, x, tile) ∷ l) = omega (arith, length-spots_bytes l)

spots_bytes-append : (l m : List Spot) → spots_bytes (l ++ m) ≡ spots_bytes l ++ spots_bytes m
unfolding spots_bytes
spots_bytes-append [] m = refl
spots_bytes-append ((y, x, tile) ∷ l) m = ap (λ b. tile ∷ x ∷ y ∷ b) (spots_bytes-append l m)

draw_tiles-spots_bytes :
    (l : List Spot) → draw_tiles (length l) (spots_bytes l) ≡ some (map painted l)
unfolding spots_bytes draw_tiles painted
draw_tiles-spots_bytes [] = refl
draw_tiles-spots_bytes ((y, x, tile) ∷ l) = rw (draw_tiles-spots_bytes l) refl

-- Behind the right edge nothing of a row is shown.
beyond :
    (minx maxx dy k : ℕ) (ts : List Maptile)
    → maxx ≤ k
    → Ascending k ts
    → row_spots minx maxx dy ts ≡ []
unfolding row_spots Ascending
beyond minx maxx dy k [] h asc = refl
beyond minx maxx dy k (t ∷ ts) h (low, asc) =
    let rest = beyond minx maxx dy (suc t.x) ts (omega arith) asc in ground arith

-- A step over one tile, on both sides.
row_tiles-shown :
    (minx maxx dy : ℕ) (t : Maptile) (ts : List Maptile) (msg : List ℕ)
    → leb minx t.x ≡ true
    → ltb t.x maxx ≡ true
    → maxx ≤ minx + 256
    → dy ≤ 255
    → length msg ≤ 1020
    → row_tiles minx maxx dy (t ∷ ts) msg
      ≡ row_tiles minx maxx dy ts (msg ++ (t.tile ∷ (t.x - minx) ∷ dy ∷ []))
unfolding row_tiles
row_tiles-shown minx maxx dy t ts msg left right wide low room =
    let keeps_x : (t.x - minx) % 256 ≡ t.x - minx = ground arith in
    let keeps_y : dy % 256 ≡ dy = omega arith in
    let fits : ltb 1024 (4 + length msg) ≡ false = ground arith in
    rw (left, right, fits, keeps_x, keeps_y) refl

row_tiles-left :
    (minx maxx dy : ℕ) (t : Maptile) (ts : List Maptile) (msg : List ℕ)
    → leb minx t.x ≡ false
    → ltb t.x maxx ≡ true
    → length msg ≤ 1020
    → row_tiles minx maxx dy (t ∷ ts) msg ≡ row_tiles minx maxx dy ts msg
unfolding row_tiles
row_tiles-left minx maxx dy t ts msg left right room =
    let fits : ltb 1024 (4 + length msg) ≡ false = ground arith in rw (left, right, fits) refl

row_spots-shown :
    (minx maxx dy : ℕ) (t : Maptile) (ts : List Maptile)
    → leb minx t.x ≡ true
    → ltb t.x maxx ≡ true
    → row_spots minx maxx dy (t ∷ ts) ≡ (dy, t.x - minx, t.tile) ∷ row_spots minx maxx dy ts
unfolding row_spots
row_spots-shown minx maxx dy t ts left right = rw (left, right) refl

row_spots-left :
    (minx maxx dy : ℕ) (t : Maptile) (ts : List Maptile)
    → leb minx t.x ≡ false
    → row_spots minx maxx dy (t ∷ ts) ≡ row_spots minx maxx dy ts
unfolding row_spots
row_spots-left minx maxx dy t ts left = rw left refl

row_tiles-out :
    (minx maxx dy : ℕ) (t : Maptile) (ts : List Maptile) (msg : List ℕ)
    → ltb t.x maxx ≡ false
    → row_tiles minx maxx dy (t ∷ ts) msg ≡ (msg, false)
unfolding row_tiles
row_tiles-out minx maxx dy t ts msg out = rw out refl

row_tiles-nil :
    (minx maxx dy : ℕ) (msg : List ℕ)
    → row_tiles minx maxx dy [] msg ≡ (msg ++ spots_bytes (row_spots minx maxx dy []), false)
unfolding row_tiles row_spots spots_bytes
row_tiles-nil minx maxx dy msg = ap (λ m. (m, false)) (sym (append-nil msg))

-- A row behind a message that leaves room for it.
row_tiles-row_spots :
    (minx maxx dy k : ℕ) (ts : List Maptile) (msg : List ℕ)
    → maxx ≤ minx + 256
    → dy ≤ 255
    → Ascending k ts
    → length msg + 3 * length (row_spots minx maxx dy ts) ≤ 1020
    → row_tiles minx maxx dy ts msg ≡ (msg ++ spots_bytes (row_spots minx maxx dy ts), false)
unfolding spots_bytes Ascending
row_tiles-row_spots minx maxx dy k [] msg wide low asc room = row_tiles-nil minx maxx dy msg
row_tiles-row_spots minx maxx dy k (t ∷ ts) msg wide low (from, asc) room =
    elim (Bool-cases (ltb t.x maxx)) [
      | inr out ↦
          let none_shown = beyond minx maxx dy t.x (t ∷ ts) (ground arith) (omega arith, asc) in
          row_tiles-out minx maxx dy t ts msg out
          ∙ ap (λ m. (m, false)) (sym (append-nil msg))
          ∙ ap (λ l. (msg ++ spots_bytes l, false)) (sym none_shown)
      | inl here ↦ elim (Bool-cases (leb minx t.x)) [
        | inr left ↦
            let same = row_spots-left minx maxx dy t ts left in
            row_tiles-left minx maxx dy t ts msg left here (omega arith)
            ∙ row_tiles-row_spots minx maxx dy (suc t.x) ts msg wide low asc
                (omega (arith, ap length same))
            ∙ ap (λ l. (msg ++ spots_bytes l, false)) (sym same)
        | inl left ↦
            let more = row_spots-shown minx maxx dy t ts left here in
            row_tiles-shown minx maxx dy t ts msg left here wide low (omega arith)
            ∙ row_tiles-row_spots minx maxx dy (suc t.x) ts _ wide low asc
                (omega (arith, ap length more, length-append msg (t.tile ∷ (t.x - minx) ∷ dy ∷ [])))
            ∙ ap (λ l. (l, false)) (append_assoc msg _ _)
            ∙ ap (λ l. (msg ++ spots_bytes l, false)) (sym more)
      ]
    ]

map_rows_step :
    (maprow : List (List Maptile)) (minx maxx dy y n : ℕ) (t : Maptile) (ts : List Maptile)
    (msg grown : List ℕ)
    → get_elem? maprow y ≡ some (t ∷ ts)
    → row_tiles minx maxx dy (t ∷ ts) msg ≡ (grown, false)
    → map_rows maprow minx maxx dy y (suc n) msg
      ≡ map_rows maprow minx maxx (suc dy) (suc y) n grown
unfolding map_rows
map_rows_step maprow minx maxx dy y n t ts msg grown at row = rw (at, row, map_rows) refl

-- Rows behind a message that leaves room for them.
map_rows-map_spots :
    (maprow : List (List Maptile)) (minx maxx dy y : ℕ) (rs : List (List Maptile)) (msg : List ℕ)
    → maxx ≤ minx + 256
    → dy + length rs ≤ 256
    → HasRows maprow y rs
    → length msg + 3 * length (map_spots minx maxx dy rs) ≤ 1020
    → map_rows maprow minx maxx dy y (length rs) msg
      ≡ some (msg ++ spots_bytes (map_spots minx maxx dy rs))
unfolding map_rows map_spots HasRows spots_bytes
map_rows-map_spots maprow minx maxx dy y [] msg wide low has room = ap some (sym (append-nil msg))
map_rows-map_spots maprow minx maxx dy y ([] ∷ rs) msg wide low (at, full, asc, has) room =
    let bad : 1 ≤ 0 = omega arith in elim bad [ ]
map_rows-map_spots maprow minx maxx dy y ((t ∷ ts) ∷ rs) msg wide low (at, full, asc, has) room =
    let l = row_spots minx maxx dy (t ∷ ts) in
    let m = map_spots minx maxx (suc dy) rs in
    let lens = length-append l m in
    let row =
      row_tiles-row_spots minx maxx dy 0 (t ∷ ts) msg wide (omega arith) asc
        (omega (arith, lens)) in
    let grown = length-append msg (spots_bytes l) in
    let more =
      map_rows-map_spots maprow minx maxx (suc dy) (suc y) rs (msg ++ spots_bytes l) wide
        (omega arith) has (omega (arith, lens, grown, length-spots_bytes l)) in
    map_rows_step maprow minx maxx dy y (length rs) t ts msg (msg ++ spots_bytes l) at row
    ∙ more
    ∙ ap some (
        append_assoc msg (spots_bytes l) (spots_bytes m)
        ∙ ap (λ b. msg ++ b) (sym (spots_bytes-append l m)))

-- The tiles that are on the screen, as the client prints them.
draw_map-map_spots :
    (l : List Spot)
    → length l ≤ 340
    → draw_map (le16 (length (spots_bytes l) / 3) ++ spots_bytes l) ≡ some (map painted l)
unfolding draw_map
draw_map-map_spots l few =
    let count : length (spots_bytes l) / 3 % 256 + 256 * (length (spots_bytes l) / 3 / 256 % 256)
        ≡ length l =
      omega (arith, length-spots_bytes l) in
    rw count (draw_tiles-spots_bytes l)

-- What `sendMapMsg` sends, from the bytes of the tiles.
send_map_msg_lem :
    (w : World) (clientid : ℕ) (vp : Viewport) (n : ℕ) (tiles : List ℕ)
    → rows_end w.game_map.lastrow (vp.by / 8) - vp.ty / 8 ≡ n
    → map_rows w.game_map.maprow (vp.tx / 8) (vp.bx / 8) 0 (vp.ty / 8) n [] ≡ some tiles
    → send_map_msg clientid vp w
      ≡ send_dropped clientid (1 ∷ Msg.map_msg ∷ (le16 (length tiles / 3) ++ tiles)) w
unfolding send_map_msg gets deref pure ◌>>=◌
send_map_msg_lem w clientid vp n tiles rows sent = rw (rows, sent) refl

-- When the rows of the map that a viewport shows, at most 256 of them and none empty, have at most
-- 340 tiles in the viewport's columns, of which there are at most 256, `sendMapMsg` sends a message
-- that the client draws as exactly these tiles: each once, in its colour, at the row and the column
-- that it has in the viewport.
pub send_map_msg-draw_map :
    (w : World) (clientid : ℕ) (vp : Viewport) (rs : List (List Maptile))
    → rows_end w.game_map.lastrow (vp.by / 8) - vp.ty / 8 ≡ length rs
    → HasRows w.game_map.maprow (vp.ty / 8) rs
    → length rs ≤ 256
    → vp.bx / 8 ≤ vp.tx / 8 + 256
    → length (map_spots (vp.tx / 8) (vp.bx / 8) 0 rs) ≤ 340
    → (msg : List ℕ) × (send_map_msg clientid vp w ≡ send_dropped clientid msg w)
      × (draw_map (drop 2 msg) ≡ some (map painted (map_spots (vp.tx / 8) (vp.bx / 8) 0 rs)))
send_map_msg-draw_map w clientid vp rs rows has few wide room =
    let l = map_spots (vp.tx / 8) (vp.bx / 8) 0 rs in
    (
      1 ∷ Msg.map_msg ∷ (le16 (length (spots_bytes l) / 3) ++ spots_bytes l),
      send_map_msg_lem w clientid vp (length rs) (spots_bytes l) rows (
          map_rows-map_spots w.game_map.maprow (vp.tx / 8) (vp.bx / 8) 0 (vp.ty / 8) rs [] wide
            (omega arith) has (omega arith)),
      draw_map-map_spots l room,
    )
