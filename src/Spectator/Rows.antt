-- ===== src/Spectator/Rows.antt =====
-- What is drawn of a map.
use spectranet.Base.{
  ℕ, zero, suc, ◌+◌, ◌*◌, ◌<◌, ◌≤◌, ◌==◌, ◌≡◌, refl, ap, arith, ltb, leb, if◌then◌else◌, pos, ◌&&◌,
  ◌||◌, Option, some, List, [], ◌∷◌, ◌++◌, Gives, Gives-bind, Gives-if, ◌>>=◌,
}
use spectranet.Spectator.Draw.{Shape}
use spectranet.Spectator.Safe.{Any, picture-Gives}
use spectranet.Spectator.Map.{draw_map_char, draw_map_icon, draw_map_row, draw_map_rows, grid_from}

draw_map_icon-Gives : (x y id c : ℕ) → id < 14 → c < 8 → Gives Any (draw_map_icon x y id c)
unfolding draw_map_icon
draw_map_icon-Gives x y id c h k = picture-Gives id c (pos (x * 16)) (pos (y * 16)) h k

draw_map_char-Gives : (i row c : ℕ) → Gives Any (draw_map_char i row c)
unfolding draw_map_char
draw_map_char-Gives i row c =
    Gives-if Any (c == b'B') _ _ (λ h. tt)
      (λ h0.
        Gives-if Any (c == b'a') _ _
          (λ h. draw_map_icon-Gives i row 1 5 (omega arith) (omega arith))
          (λ h1.
            Gives-if Any (c == b'b') _ _
              (λ h. draw_map_icon-Gives i row 1 2 (omega arith) (omega arith))
              (λ h2.
                Gives-if Any (c == b'f') _ _
                  (λ h. draw_map_icon-Gives i row 3 6 (omega arith) (omega arith))
                  (λ h3.
                    Gives-if Any (c == b'g') _ _
                      (λ h. draw_map_icon-Gives i row 2 6 (omega arith) (omega arith))
                      (λ h4.
                        Gives-if Any (leb b'0' c && leb c b'9') _ _
                          (λ h.
                            draw_map_icon-Gives i row 0 (if ltb c b'2' then 5 else 2) (omega arith)
                              (ground arith))
                          (λ h5. tt))))))

draw_map_row-Gives : (i row : ℕ) (cs : List ℕ) → Gives Any (draw_map_row i row cs)
unfolding draw_map_row
draw_map_row-Gives i row [] = tt
draw_map_row-Gives i row (c ∷ cs) =
    Gives-if Any (leb 1024 i || (c == 0)) _ _ (λ h. tt)
      (λ h. Gives-bind Any Any (draw_map_char i row c) _ (draw_map_char-Gives i row c) (λ here u.
        Gives-bind Any Any (draw_map_row (i + 1) row cs) _ (draw_map_row-Gives (i + 1) row cs)
          (λ rest v. tt)))

-- All of the rows.
unfoldable pub every_row : ℕ → List (List ℕ) → Option (List Shape)
every_row row [] = some []
every_row row (r ∷ rs) = do
  here ← draw_map_row 0 row r
  rest ← every_row (row + 1) rs
  some (here ++ rest)

every_row-Gives : (row : ℕ) (rs : List (List ℕ)) → Gives Any (every_row row rs)
unfolding every_row
every_row-Gives row [] = tt
every_row-Gives row (r ∷ rs) =
    Gives-bind Any Any (draw_map_row 0 row r) _ (draw_map_row-Gives 0 row r) (λ here u.
      Gives-bind Any Any (every_row (row + 1) rs) _ (every_row-Gives (row + 1) rs) (λ rest v. tt))

all_but_last :
    (row : ℕ) (rs : List (List ℕ)) (r : List ℕ)
    → draw_map_rows row (rs ++ (r ∷ [])) ≡ every_row row rs
unfolding draw_map_rows every_row
all_but_last row [] r = refl
all_but_last row (q ∷ []) r = refl
all_but_last row (q ∷ s ∷ rs) r =
    ap (λ o. draw_map_row 0 row q >>= λ here. o >>= λ rest. some (here ++ rest))
      (all_but_last (row + 1) (s ∷ rs) r)

-- What is drawn of a map are all of its rows but the last, whatever they hold, and nothing of it
-- reads outside of the tables of pictures and colours.
pub draw_map_rows-snoc :
    (row : ℕ) (rs : List (List ℕ)) (r : List ℕ)
    → (draw_map_rows row (rs ++ (r ∷ [])) ≡ every_row row rs)
      × Gives Any (draw_map_rows row (rs ++ (r ∷ [])))
unfolding draw_map_rows every_row
draw_map_rows-snoc row rs r = (all_but_last row rs r, again)
  where
    again : Gives Any (draw_map_rows row (rs ++ (r ∷ [])))
    again = rw (all_but_last row rs r) (every_row-Gives row rs)

-- The lines of the grid do not depend on the fuel, once there is as much of it as pixels are left.
pub grid_from-fuel :
    (f g i limit by : ℕ)
    → limit ≤ i + f
    → limit ≤ i + g
    → 1 ≤ by
    → grid_from f i limit by ≡ grid_from g i limit by
unfolding grid_from
grid_from-fuel zero zero i limit by h l k = refl
grid_from-fuel zero (suc g) i limit by h l k = ground arith
grid_from-fuel (suc f) zero i limit by h l k = ground arith
grid_from-fuel (suc f) (suc g) i limit by h l k =
    ap (λ r. if ltb i limit then i ∷ r else [])
      (grid_from-fuel f g (i + by) limit by (omega arith) (omega arith) k)
