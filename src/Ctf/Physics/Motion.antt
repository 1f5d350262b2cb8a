-- ===== src/Ctf/Physics/Motion.antt =====
-- The motion of the objects stays inside the direction table and inside the speed limits.
use spectranet.Base.{
  ℕ, ◌+◌, ◌≤◌, ◌<◌, ℤ, pos, negsuc, abs_ℤ, ◌≤ℤ◌, ◌+ℤ◌, ◌-ℤ◌, ◌==ℤ◌, ltb_ℤ, mod_ℤ, mod_ℤ-lt_16, ◌≡◌,
  refl, Bool, true, false, Bool-cases, length, zero, suc, shr_ℤ, ◌*ℤ◌, List, [], ◌∷◌, some,
  get_elem?, bit, arith, ◌⊎◌, inl, inr, ◌&&◌, if◌then◌else◌,
}
use spectranet.Ctf.Types.{Object, ObjectProperties, Vector}
use spectranet.Ctf.World.{Env}
use spectranet.Ctf.Sound.{All}
use spectranet.Ctf.Physics.{
  vec_at, vectbl, acostbl, acostbl2, displacement, direction, table_entry, nearest, resultant,
  add_vector, steer, throttle, turn_by_keys, control_motion,
}

-- A direction of the compass that the table has.
abbrev pub IsDir : ℤ → Type 0
IsDir d = (pos 0 ≤ℤ d) × (d ≤ℤ pos 15)

get_elem?-All :
    {A : Type 0} {P : A → Type 0} (xs : List A) (n : ℕ)
    → All P xs
    → n < length xs
    → (a : A) × (get_elem? xs n ≡ some a) × P a
get_elem?-All [] n all h = elim h [ ]
get_elem?-All (x ∷ xs) zero (px, all) h = (x, refl, px)
get_elem?-All (x ∷ xs) (suc n) (px, all) h = get_elem?-All xs n all (omega arith)

vec_at-total : (d : ℤ) → IsDir d → (p : ℤ × ℤ) × (vec_at d ≡ some p)
unfolding vec_at vectbl
vec_at-total (pos n) h =
    let (a, e, u) = get_elem?-All {P = λ p. Unit {0}} vectbl n (ground arith) (omega arith) in
    (a, e)
vec_at-total (negsuc n) h = let bad : 1 ≤ 0 = omega arith in elim bad [ ]

pub displacement-total : (v : Vector) → IsDir v.dir → (p : ℤ × ℤ) × (displacement v ≡ some p)
unfolding displacement
displacement-total v h =
    let (d, e) = vec_at-total v.dir h in
    ((shr_ℤ (d.0 *ℤ v.velocity) 4, shr_ℤ (d.1 *ℤ v.velocity) 4), rw (displacement, e) refl)

-- The table entry of an angle between two axes.
abbrev IsEntry : ℕ → Type 0
IsEntry n = n < 8

quadrant :
    (a b : ℕ) (north south west : Bool)
    → a ≤ 4
    → b ≤ 4
    → IsDir (
        if north
        then pos a
        else if south
        then pos (b + 3)
        else if west
        then pos (a + 7)
        else pos (b + 11))
quadrant a b n s w ha hb = ground arith

direction-IsDir : (dx dy : ℤ) (n : ℕ) → IsEntry n → (d : ℤ) × (direction dx dy n ≡ some d) × IsDir d
unfolding direction acostbl acostbl2
direction-IsDir dx dy n h =
    let (a, ea, la) = get_elem?-All {P = λ k. k ≤ 4} acostbl n (ground arith) h in
    let (b, eb, lb) = get_elem?-All {P = λ k. k ≤ 4} acostbl2 n (ground arith) h in
    rw (ea, eb) (_, refl, quadrant a b _ _ _ la lb)

turned-IsDir : (a : ℤ) → IsDir (pos (mod_ℤ a 16))
turned-IsDir a = omega (arith, mod_ℤ-lt_16 a)

steer-IsDir :
    (turn : ℤ) (props : ObjectProperties) (obj : Object)
    → IsDir obj.commanded.dir
    → IsDir (steer turn props obj).commanded.dir
unfolding steer
steer-IsDir turn props obj h = elim (Bool-cases (ltb_ℤ (obj.dir_chg_count -ℤ pos 1) (pos 1))) [
  | inl due ↦ rw due (turned-IsDir _)
  | inr early ↦ rw early h
]

throttle-IsDir :
    (props : ObjectProperties) (obj : Object)
    → IsDir obj.commanded.dir
    → IsDir (throttle props obj).commanded.dir
unfolding throttle
throttle-IsDir props obj h = elim (Bool-cases (bit obj.ctrls 0)) [
  | inl fast ↦ rw fast h
  | inr off ↦ elim (Bool-cases (bit obj.ctrls 1)) [
    | inl slow ↦ rw (off, slow) h
    | inr idle ↦ rw (off, idle) h
  ]
]

-- The velocity that a drive can be at.
abbrev pub InLimits : ObjectProperties → Object → Type 0
InLimits props obj =
    (pos 0 ≤ℤ obj.commanded.velocity) × (obj.commanded.velocity ≤ℤ props.max_velocity)

throttle-InLimits :
    (props : ObjectProperties) (obj : Object)
    → pos 0 ≤ℤ props.max_velocity
    → pos 0 ≤ℤ props.max_accel
    → pos 0 ≤ℤ props.max_brake
    → InLimits props obj
    → InLimits props (throttle props obj)
unfolding throttle ◌+ℤ◌ ◌-ℤ◌
throttle-InLimits props obj hv ha hb h = ground arith

steer_velocity :
    (turn : ℤ) (props : ObjectProperties) (obj : Object)
    → (steer turn props obj).commanded.velocity ≡ obj.commanded.velocity
unfolding steer
steer_velocity turn props obj = elim (Bool-cases (ltb_ℤ (obj.dir_chg_count -ℤ pos 1) (pos 1))) [
  | inl due ↦ rw due refl
  | inr early ↦ rw early refl
]

turn_by_keys-cases :
    (props : ObjectProperties) (obj : Object)
    → (turn_by_keys props obj ≡ obj)
      ⊎ ((turn : ℤ) × (turn_by_keys props obj ≡ steer turn props obj))
unfolding turn_by_keys
turn_by_keys-cases props obj = elim (Bool-cases (bit obj.ctrls 2)) [
  | inl left ↦ inr (negsuc 0, rw left refl)
  | inr off ↦ elim (Bool-cases (bit obj.ctrls 3)) [
    | inl right ↦ inr (pos 1, rw (off, right) refl)
    | inr idle ↦ inl (rw (off, idle) refl)
  ]
]

-- A drive whose direction is in the table and whose speed is within its limits.
abbrev pub IsDrive : ObjectProperties → Object → Type 0
IsDrive props obj = IsDir obj.commanded.dir × InLimits props obj

turn_by_keys-IsDrive :
    (props : ObjectProperties) (obj : Object)
    → IsDrive props obj
    → IsDrive props (turn_by_keys props obj)
turn_by_keys-IsDrive props obj h = elim (turn_by_keys-cases props obj) [
  | inl same ↦ rw same h
  | inr (turn, turned) ↦
      rw (turned, steer_velocity turn props obj) (steer-IsDir turn props obj h.0, h.1)
]

if_both : {A : Type 0} (P : A → Type 0) (c : Bool) {a b : A} → P a → P b → P (if c then a else b)
if_both P true pa pb = pa
if_both P false pa pb = pb

-- Whatever keys are held down, the controls keep an object's commanded direction among the 16 of
-- the table and its speed between 0 and the maximum of its type, given that the type's maximum,
-- acceleration and braking are not negative.
pub control_motion-IsDrive :
    (props : ObjectProperties) (obj : Object)
    → pos 0 ≤ℤ props.max_velocity
    → pos 0 ≤ℤ props.max_accel
    → pos 0 ≤ℤ props.max_brake
    → IsDrive props obj
    → IsDrive props (control_motion props obj)
unfolding control_motion
control_motion-IsDrive props obj hv ha hb h = if_both (IsDrive props) obj.flags.exploding h (
    turn_by_keys-IsDrive props (throttle props obj)
      (throttle-IsDir props obj h.0, throttle-InLimits props obj hv ha hb h.1))

-- The side of a triangle is no longer than its hypotenuse, so the entry is in the tables.
table_entry-IsEntry : (p q : ℕ) → IsEntry (table_entry q (p + q))
unfolding table_entry nearest
table_entry-IsEntry p q = ground arith

resultant-total :
    (env : Env) (dx dy : ℤ) → (v : Vector) × (resultant env dx dy ≡ some v) × IsDir v.dir
unfolding resultant
resultant-total env dx dy =
    let square = abs_ℤ (dx *ℤ dx) + abs_ℤ (dy *ℤ dy) in
    let (d, e, table) =
      direction-IsDir dx dy _ (table_entry-IsEntry (abs_ℤ (dx *ℤ dx)) (abs_ℤ (dy *ℤ dy))) in
    elim (Bool-cases ((dx ==ℤ pos 0) && (dy ==ℤ pos 0))) [
      | inl still ↦ rw still (record { dir = pos 0; velocity = pos 0 }, refl, omega arith)
      | inr moves ↦
          rw (moves, e) (record { dir = d; velocity = pos (env.sqrt_int square) }, refl, table)
    ]

-- Two vectors with directions of the table have a sum, whose direction is in the table again: no
-- table is read out of bounds.
pub add_vector-total :
    (env : Env) (v1 v2 : Vector)
    → IsDir v1.dir
    → IsDir v2.dir
    → (v : Vector) × (add_vector env v1 v2 ≡ some v) × IsDir v.dir
unfolding add_vector
add_vector-total env v1 v2 h1 h2 =
    let (d1, e1) = displacement-total v1 h1 in
    let (d2, e2) = displacement-total v2 h2 in
    elim (Bool-cases (v1.velocity ==ℤ pos 0)) [
      | inl still ↦ rw still (v2, refl, h2)
      | inr moves ↦ elim (Bool-cases (v2.velocity ==ℤ pos 0)) [
        | inl rests ↦ rw (moves, rests) (v1, refl, h1)
        | inr both ↦ rw (moves, both, e1, e2) (resultant-total env (d1.0 +ℤ d2.0) (d1.1 +ℤ d2.1))
      ]
    ]
