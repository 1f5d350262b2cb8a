-- ===== src/Ctf/MapTiles/Load/Shape.antt =====
-- What the loader makes of the text of a map.
use spectranet.Base.{
  ℕ, suc, ◌≤◌, ◌<◌, ◌==◌, arith, Option, none, some, Bool-cases, inl, inr, List, [], ◌∷◌, ◌++◌,
  length, length-append,
}
use spectranet.Ctf.Types.{ObjType, Maptile, MapXy}
use spectranet.Ctf.Objects.{fine}
use spectranet.Ctf.World.{World, GameMap, modify, gets, deref, pure, rand, ◌>>=◌, skip, fault}
use spectranet.Ctf.Keeps.{
  Keeps, After, Yields, Keeps-modify, Keeps-seq, Keeps-if, Keeps-skip, Keeps-fault, Keeps-bind_with,
  Keeps-bind, Keeps-gets, Yields-pure, Yields-if, Yields-seq, Yields-bind, Yields-weaken,
}
use spectranet.Ctf.Sound.{All, IsSpawn}
use spectranet.Ctf.Sound.Pickups.{cooldown_bounds}
use spectranet.Ctf.Powerups
use spectranet.Ctf.MapTiles.Load

-- The tiles of a row stand at columns from `k` on, from left to right.
unfoldable pub Ascending : ℕ → List Maptile → Type 0
Ascending k [] = Unit
Ascending k (t ∷ ts) = (k ≤ t.x) × Ascending (suc t.x) ts

-- Every row is in order, and the power-ups are those that the server's state may hold.
abbrev pub IsLoaded : World → Type 0
IsLoaded w = All (Ascending 0) w.game_map.maprow × (length w.powerups ≤ 20) × All IsSpawn w.powerups

Ascending-weaken : (i : ℕ) (ts : List Maptile) → Ascending (suc i) ts → Ascending i ts
unfolding Ascending
Ascending-weaken i [] h = tt
Ascending-weaken i (t ∷ ts) (low, h) = (omega arith, h)

All-snoc :
    {A : Type 0} (P : A → Type 0) (xs : List A) (a : A) → All P xs → P a → All P (xs ++ (a ∷ []))
All-snoc P [] a h p = (p, tt)
All-snoc P (x ∷ xs) a (q, h) p = (q, All-snoc P xs a h p)

get_cooldown-Yields-IsLoaded : Yields IsLoaded (λ c. c < 720) Powerups.get_cooldown
unfolding Powerups.get_cooldown rand ◌>>=◌ pure
get_cooldown-Yields-IsLoaded = record { at = λ w h. ((cooldown_bounds (w.env.rand w.rands)).1, h) }

-- Where a power-up still has room, the list with it is one the server may hold.
add_known :
    (w : World) (location : MapXy) (o : Option ObjType)
    → length w.powerups < 20
    → IsLoaded w
    → After IsLoaded (
        (do
          c ← Powerups.get_cooldown
          t ← deref o
          modify (λ w. record w {
            powerups =
                w.powerups
                ++ (record {
                  x = fine location.mapx;
                  y = fine location.mapy;
                  cooldown = c;
                  type = t;
                }
                    ∷ []);
          }))
          w)
unfolding Powerups.get_cooldown rand ◌>>=◌ pure deref modify fault
add_known w location none room (rows, few, spawns) = tt
add_known w location (some t) room (rows, few, spawns) = (
  rows,
  omega (arith, length-append w.powerups (_ ∷ [])),
  All-snoc IsSpawn w.powerups _ spawns ((cooldown_bounds (w.env.rand w.rands)).1),
)

add_powerup-Keeps-IsLoaded :
    (location : MapXy) (tile : ℕ) → Keeps IsLoaded (Powerups.add_powerup location tile)
unfolding Powerups.add_powerup gets ◌>>=◌ skip
add_powerup-Keeps-IsLoaded location tile = record {
  at = λ w h. elim (Bool-cases (length w.powerups == 20)) [
    | inl full ↦ rw full h
    | inr room ↦ rw room (add_known w location (Powerups.spawn_type tile) (ground arith) h)
  ];
}

change_map-Keeps :
    (f : GameMap → GameMap)
    → ((g : GameMap) → All (Ascending 0) g.maprow → All (Ascending 0) (f g).maprow)
    → Keeps IsLoaded (Load.change_map f)
unfolding Load.change_map
change_map-Keeps f k =
    Keeps-modify _ (λ w h. let (rows, few, spawns) = h in (k w.game_map rows, few, spawns))

note_place-Keeps : (i y c : ℕ) → Keeps IsLoaded (Load.note_place i y c)
unfolding Load.note_place
note_place-Keeps i y c =
    search (Keeps-if, Keeps-skip, change_map-Keeps, add_powerup-Keeps-IsLoaded) depth 20

row_from-Yields : (i y : ℕ) (txt : List ℕ) → Yields IsLoaded (Ascending i) (Load.row_from i y txt)
unfolding Load.row_from Ascending
row_from-Yields i y [] = Yields-pure (Ascending i) [] tt
row_from-Yields i y (c ∷ cs) =
    Yields-if (Ascending i) _ _ _
      (Yields-seq (Ascending i) _ _ (note_place-Keeps i y c) (
        Yields-if (Ascending i) _ _ _
          (Yields-bind (Ascending (suc i)) (Ascending i) _ _ (row_from-Yields (suc i) y cs)
            (λ rest asc. Yields-pure (Ascending i) _ (omega arith, asc)))
          (Yields-if (Ascending i) _ _ _ (Yields-pure (Ascending i) [] tt) (
            Yields-weaken (Ascending (suc i)) (Ascending i) _ (Ascending-weaken i)
              (row_from-Yields (suc i) y cs)))))
      (Yields-pure (Ascending i) [] tt)

load_line-Keeps : (txtrow : List ℕ) → Keeps IsLoaded (Load.load_line txtrow)
unfolding Load.load_line Load.build_map_row
load_line-Keeps txtrow = Keeps-if _ _ _ (change_map-Keeps _ (λ g h. h)) (
    Keeps-bind _ _ (Keeps-gets _) (λ row.
      Keeps-bind_with (Ascending 0) _ _ (row_from-Yields 0 row txtrow) (λ tiles asc.
        Keeps-if _ _ _ (change_map-Keeps _ (λ g h. All-snoc (Ascending 0) g.maprow tiles h asc))
          Keeps-fault)))

load_lines-Keeps : (lines : List (List ℕ)) → Keeps IsLoaded (Load.load_lines lines)
unfolding Load.load_lines
load_lines-Keeps [] = Keeps-skip
load_lines-Keeps (txtrow ∷ more) = Keeps-seq _ _ (load_line-Keeps txtrow) (load_lines-Keeps more)

-- Whatever the text of a map is: where the loader does not fault, every row of the map has its tiles
-- from left to right, and the power-ups are at most 20, each with a cooldown below 720 frames, if
-- that holds of them before.
pub load_map-Keeps : (lines : List (List ℕ)) → Keeps IsLoaded (Load.load_map lines)
unfolding Load.load_map
load_map-Keeps lines =
    Keeps-seq _ _ (change_map-Keeps _ (λ g h. tt))
      (Keeps-seq _ _ (load_lines-Keeps lines) (change_map-Keeps _ (λ g h. h)))
