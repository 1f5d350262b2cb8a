-- ===== src/Ctf/Physics/Steps.antt =====
-- A frame's movement of an object, and what two objects that touch do to each other.
use spectranet.Base.{ℤ, pos, ◌≤ℤ◌, ◌+ℤ◌, ltb_ℤ, mod_ℤ-lt_16, ◌≡◌, refl, some, arith, if◌then◌else◌}
use spectranet.Ctf.Types.{Object}
use spectranet.Ctf.World.{Env}
use spectranet.Ctf.Physics.{process_push, moved, opposite, shove, clamp}
use spectranet.Ctf.Physics.Motion.{IsDir, displacement-total, add_vector-total}

-- The object stands on the map's side of both axes.
abbrev pub OnMap : Object → Type 0
OnMap o = (pos 0 ≤ℤ o.x) × (pos 0 ≤ℤ o.y)

clamp_pos : (a : ℤ) → pos 0 ≤ℤ clamp a
clamp_pos a = ground arith

process_push-total :
    (env : Env) (o : Object)
    → IsDir o.commanded.dir
    → IsDir o.push.dir
    → (o' : Object) × (process_push env o ≡ some o') × IsDir o'.actual.dir
unfolding process_push
process_push-total env o hc hp =
    let (v, e, h) = add_vector-total env o.commanded o.push hc hp in
    rw (process_push, e) (_, refl, h)

moved-OnMap : (o : Object) → IsDir o.actual.dir → (o' : Object) × (moved o ≡ some o') × OnMap o'
unfolding moved
moved-OnMap o h =
    let (d, e) = displacement-total o.actual h in
    rw (moved, e) (_, refl, (clamp_pos (o.x +ℤ d.0), clamp_pos (o.y +ℤ d.1)))

-- An object whose commanded and pushing directions are in the table goes through a frame's motion
-- without a read outside the tables, and ends at coordinates that are not negative.
pub push_and_move :
    (env : Env) (o : Object)
    → IsDir o.commanded.dir
    → IsDir o.push.dir
    → (pushed placed : Object) × (process_push env o ≡ some pushed)
      × (moved pushed ≡ some placed)
      × OnMap placed
push_and_move env o hc hp =
    let (pushed, e, h) = process_push-total env o hc hp in
    let (placed, e', on_map) = moved-OnMap pushed h in (pushed, placed, e, e', on_map)

opposite-IsDir : (d : ℤ) → IsDir (opposite d)
unfolding opposite
opposite-IsDir d = omega (arith, mod_ℤ-lt_16 (d +ℤ pos 8))

cut : (v : ℤ) → (if ltb_ℤ (pos 40) v then pos 40 else v) ≤ℤ pos 40
cut v = ground arith

-- Two objects that touch, with directions of the table, push each other in opposite directions of
-- the table, with the same force of at most 40, and without a read outside the tables.
pub shove_lem :
    (env : Env) (a b : Object)
    → IsDir a.actual.dir
    → (a' b' : Object) × (shove env a b ≡ some (a', b'))
      × IsDir b'.push.dir
      × (a'.push.dir ≡ opposite b'.push.dir)
      × (a'.push.velocity ≡ b'.push.velocity)
      × (a'.push.velocity ≤ℤ pos 40)
unfolding shove
shove_lem env a b ha =
    let (v, e, h) =
      add_vector-total env a.actual (record b.actual { dir = opposite b.actual.dir }) ha
        (opposite-IsDir b.actual.dir) in
    rw (shove, e) (_, _, refl, h, refl, refl, cut (v.velocity +ℤ pos 8))
