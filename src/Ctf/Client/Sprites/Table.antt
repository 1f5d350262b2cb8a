-- ===== src/Ctf/Client/Sprites/Table.antt =====
-- What holds of the table of sprites and of the animations after any messages.
use spectranet.Base.{
  ℕ, zero, suc, ◌+◌, ◌*◌, ◌%◌, ◌==◌, ◌≤◌, ◌<◌, ◌≡◌, ap, ◌∙◌, arith, ℤ, pos, ◌+ℤ◌, ◌-ℤ◌, false,
  Option, none, some, List, [], ◌∷◌, ◌++◌, get_elem?, set, length, Bool-cases, inl, inr,
}
use spectranet.Ctf.Client.Sprites.{
  Sprites, Call, create, move_pix, colour_spr, move_off, delete, invalidate, step_foton,
}

-- The sprites that were given back, and those that the table holds.
unfoldable pub deleted : List Call → ℕ
deleted [] = 0
deleted (delete s ∷ l) = suc (deleted l)
deleted (_ ∷ l) = deleted l

unfoldable pub live : List (Option ℕ) → ℕ
live [] = 0
live (none ∷ l) = live l
live (some s ∷ l) = suc (live l)

-- The animation of the torpedoes: a frame from 0 to 3, the place of its graphic, and the way it
-- goes.
pub record IsFoton (foton_frame : ℕ) (foton_ptr : ℤ) (dir : ℕ) : Type 0 where
  pub place : foton_ptr ≡ pos (96 * foton_frame)
  pub up : dir ≡ 0 → foton_frame ≤ 2
  pub down : (dir == 0) ≡ false → (1 ≤ foton_frame) × (foton_frame ≤ 3)

-- The table has its 48 slots, the animations are in range, and every sprite that was made is in the
-- table or was given back.
pub record IsTable (t : Sprites) : Type 0 where
  pub size : length t.sprtbl ≡ 48
  pub foton : IsFoton t.foton_frame t.foton_ptr t.foton_anim_dir
  pub colour : t.foton_colour < 8
  pub xplode : t.xplode_frame ≤ 1
  pub balance : t.made ≡ deleted t.calls + live t.sprtbl

pub deleted-append : (k l : List Call) → deleted (k ++ l) ≡ deleted k + deleted l
unfolding deleted
deleted-append [] l = omega arith
deleted-append (create s ∷ k) l = deleted-append k l
deleted-append (move_pix s f x y ∷ k) l = deleted-append k l
deleted-append (colour_spr s a m ∷ k) l = deleted-append k l
deleted-append (move_off s ∷ k) l = deleted-append k l
deleted-append (delete s ∷ k) l = omega (arith, deleted-append k l)
deleted-append (invalidate ∷ k) l = deleted-append k l

pub live-filled :
    (l : List (Option ℕ)) (i s : ℕ)
    → get_elem? l i ≡ some none
    → live (set l i (some s)) ≡ live l + 1
unfolding live
live-filled [] i s e = cc
live-filled (none ∷ l) zero s e = omega arith
live-filled (some r ∷ l) zero s e = cc
live-filled (none ∷ l) (suc i) s e = live-filled l i s e
live-filled (some r ∷ l) (suc i) s e = omega (arith, live-filled l i s e)

pub live-emptied :
    (l : List (Option ℕ)) (i s : ℕ)
    → get_elem? l i ≡ some (some s)
    → live (set l i none) + 1 ≡ live l
unfolding live
live-emptied [] i s e = cc
live-emptied (none ∷ l) zero s e = cc
live-emptied (some r ∷ l) zero s e = omega arith
live-emptied (none ∷ l) (suc i) s e = live-emptied l i s e
live-emptied (some r ∷ l) (suc i) s e = omega (arith, live-emptied l i s e)

up_step : (f : ℕ) → f ≤ 2 → pos (96 * f) +ℤ pos 96 ≡ pos (96 * ((f + 1) % 256))
unfolding ◌+ℤ◌
up_step f h = ground arith

down_step : (f : ℕ) → 1 ≤ f → f ≤ 3 → pos (96 * f) -ℤ pos 96 ≡ pos (96 * ((f + 255) % 256))
unfolding ◌-ℤ◌
down_step f h k = ground arith

pub step_foton-IsFoton :
    (t : Sprites)
    → IsFoton t.foton_frame t.foton_ptr t.foton_anim_dir
    → IsFoton (step_foton t).foton_frame (step_foton t).foton_ptr (step_foton t).foton_anim_dir
unfolding step_foton
step_foton-IsFoton t i =
    let place = i.place in
    let up = i.up in
    let down = i.down in
    elim (Bool-cases (t.foton_anim_dir == 0)) [
      | inl e ↦ rw e (
          let low = up (ground arith) in
          record {
            place = ap (λ p. p +ℤ pos 96) place ∙ up_step t.foton_frame low;
            up = λ h. ground arith;
            down = λ h. ground arith;
          })
      | inr e ↦ rw e (
          let (one, three) = down e in
          record {
            place = ap (λ p. p -ℤ pos 96) place ∙ down_step t.foton_frame one three;
            up = λ h. ground arith;
            down = λ h. ground arith;
          })
    ]
