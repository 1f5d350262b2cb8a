-- ===== src/Ctf/Physics.antt =====
-- Directions and velocities: `addVector`, `processPush`, `shoveObject` and the moves of
-- server/object.c, and server/control.c.
pub mod Steps
pub mod Motion
use spectranet.Base.{
  ℕ, zero, suc, ◌+◌, ◌*◌, ltb, ℤ, pos, negsuc, ◌+ℤ◌, ◌-ℤ◌, ◌*ℤ◌, ltb_ℤ, leb_ℤ, ◌==ℤ◌, abs_ℤ, shr_ℤ,
  mod_ℤ, ◌&&◌, Option, none, some, List, [], ◌∷◌, if◌then◌else◌, get_elem?, bit,
}
use spectranet.Ctf.Types.{Vector, Object, ObjectProperties}
use spectranet.Ctf.World.{Env}
use spectranet.Ctf.Objects.{objprops}

abbrev pub neg : ℕ → ℤ
neg n = pos 0 -ℤ pos n

-- Rotation/direction lookup table, clockwise from north, with 16 steps around the circle.
unfoldable pub vectbl : List (ℤ × ℤ)
unfolding ◌-ℤ◌
vectbl =
    (pos 0, neg 16)
    ∷ (pos 6, neg 15)
    ∷ (pos 11, neg 11)
    ∷ (pos 15, neg 6)
    ∷ (pos 16, pos 0)
    ∷ (pos 15, pos 6)
    ∷ (pos 11, pos 11)
    ∷ (pos 6, pos 15)
    ∷ (pos 0, pos 16)
    ∷ (neg 6, pos 15)
    ∷ (neg 11, pos 11)
    ∷ (neg 15, pos 6)
    ∷ (neg 16, pos 0)
    ∷ (neg 15, neg 6)
    ∷ (neg 11, neg 11)
    ∷ (neg 6, neg 15)
    ∷ []

unfoldable pub acostbl : List ℕ
acostbl = 4 ∷ 4 ∷ 3 ∷ 3 ∷ 2 ∷ 2 ∷ 1 ∷ 0 ∷ []

unfoldable pub acostbl2 : List ℕ
acostbl2 = 0 ∷ 1 ∷ 2 ∷ 2 ∷ 3 ∷ 3 ∷ 4 ∷ 4 ∷ []

-- `vectbl[dir]`; `none` is an index outside the table.
unfoldable pub vec_at : ℤ → Option (ℤ × ℤ)
unfolding vectbl
vec_at (pos n) = get_elem? vectbl n
vec_at (negsuc n) = none

-- `vectbl[dir].d * velocity >> 4`, in both coordinates.
unfoldable pub displacement : Vector → Option (ℤ × ℤ)
unfolding vec_at ◌*ℤ◌
displacement v = elim (vec_at v.dir) [
  | none ↦ none
  | some (dx, dy) ↦ some (shr_ℤ (dx *ℤ v.velocity) 4, shr_ℤ (dy *ℤ v.velocity) 4)
]

-- The direction of a displacement, from the sign of its parts and the table entry; `none` is an
-- entry outside the tables.
unfoldable pub direction : ℤ → ℤ → ℕ → Option ℤ
unfolding acostbl acostbl2
direction dx dy entry = elim (get_elem? acostbl entry) [
  | none ↦ none
  | some a ↦ elim (get_elem? acostbl2 entry) [
    | none ↦ none
    | some b ↦ some (
        if leb_ℤ (pos 0) dx && leb_ℤ dy (pos 0)
        then pos a
        else if leb_ℤ (pos 0) dx && leb_ℤ (pos 0) dy
        then pos (b + 3)
        else if leb_ℤ dx (pos 0) && leb_ℤ (pos 0) dy
        then pos (a + 7)
        else pos (b + 11))
  ]
]

-- The nearest whole number to the root of `s / (4 * h)`, from `k` on: it is beyond `k` if the root is
-- beyond `k` and a half.
unfoldable pub nearest : ℕ → ℕ → ℕ → ℕ → ℕ
nearest zero k s h = k
nearest (suc rounds) k s h =
    let more = nearest rounds (suc k) s h in
    if ltb ((2 * k + 1) * (2 * k + 1) * h) s then more else k

-- `abs(rint((dy / hyp) * 7))` from the squares of `dy` and `hyp`. A half does not occur, since no odd
-- number has a square that is short of 14 * 14 by a square, and the doubles are far more exact than
-- the distance of the two whole numbers from each other asks for.
unfoldable pub table_entry : ℕ → ℕ → ℕ
unfolding nearest
table_entry dy_square square = nearest 8 0 (4 * 49 * dy_square) square

-- The sum of two displacements as a vector.
unfoldable pub resultant : Env → ℤ → ℤ → Option Vector
unfolding direction table_entry ◌+ℤ◌ ◌*ℤ◌
resultant env dx dy =
    let square = abs_ℤ (dx *ℤ dx) + abs_ℤ (dy *ℤ dy) in
    if (dx ==ℤ pos 0) && (dy ==ℤ pos 0)
    then some (record { dir = pos 0; velocity = pos 0 })
    else elim (direction dx dy (table_entry (abs_ℤ (dy *ℤ dy)) square)) [
      | none ↦ none
      | some d ↦ some (record { dir = d; velocity = pos (env.sqrt_int square) })
    ]

-- Add two vectors.
unfoldable pub add_vector : Env → Vector → Vector → Option Vector
unfolding displacement resultant ◌+ℤ◌
add_vector env v1 v2 =
    if v1.velocity ==ℤ pos 0
    then some v2
    else if v2.velocity ==ℤ pos 0
    then some v1
    else elim (displacement v1) [
      | none ↦ none
      | some (dx1, dy1) ↦ elim (displacement v2) [
        | none ↦ none
        | some (dx2, dy2) ↦ resultant env (dx1 +ℤ dx2) (dy1 +ℤ dy2)
      ]
    ]

-- `processPush`.
unfoldable pub process_push : Env → Object → Option Object
unfolding add_vector ◌-ℤ◌ objprops
process_push env obj = elim (add_vector env obj.commanded obj.push) [
  | none ↦ none
  | some actual ↦ some (record obj {
    actual = actual;
    push =
        if obj.push.velocity ==ℤ pos 0
        then obj.push
        else record obj.push { velocity = obj.push.velocity -ℤ (objprops obj.type).pushdecay };
  })
]

-- The coordinate part of a clamp at 0.
abbrev pub clamp : ℤ → ℤ
clamp a = if ltb_ℤ a (pos 0) then pos 0 else a

-- The part of `moveObject` that works on the object: the position is clamped at 0, and an object
-- that is clamped stops.
unfoldable pub moved : Object → Option Object
unfolding displacement ◌+ℤ◌
moved obj = elim (displacement obj.actual) [
  | none ↦ none
  | some (dx, dy) ↦ some (record obj {
    prevx = obj.x;
    prevy = obj.y;
    x = clamp (obj.x +ℤ dx);
    y = clamp (obj.y +ℤ dy);
    actual =
        if ltb_ℤ (obj.x +ℤ dx) (pos 0)
        then record obj.actual { velocity = pos 0 }
        else if ltb_ℤ (obj.y +ℤ dy) (pos 0)
        then record obj.actual { velocity = pos 0 }
        else obj.actual;
  })
]

-- `(dir + 8) & 0x0F`.
unfoldable pub opposite : ℤ → ℤ
unfolding ◌+ℤ◌
opposite d = pos (mod_ℤ (d +ℤ pos 8) 16)

-- `shoveObject`: the new `obj` and the new `with`.
unfoldable pub shove : Env → Object → Object → Option (Object × Object)
unfolding add_vector opposite ◌+ℤ◌
shove env obj other =
    elim (add_vector env obj.actual (record other.actual { dir = opposite other.actual.dir })) [
      | none ↦ none
      | some sum ↦
          let v = sum.velocity +ℤ pos 8 in
          let cvec = record sum { velocity = if ltb_ℤ (pos 40) v then pos 40 else v } in
          some (
            record obj { push = record cvec { dir = opposite cvec.dir } },
            record other { push = cvec },
          )
    ]

-- The steering keys of `processObjectControl`: the direction changes when the count runs out.
unfoldable pub steer : ℤ → ObjectProperties → Object → Object
unfolding ◌+ℤ◌ ◌-ℤ◌
steer turn props obj =
    let left = obj.dir_chg_count -ℤ pos 1 in
    if ltb_ℤ left (pos 1)
    then record obj {
      commanded = record obj.commanded { dir = pos (mod_ℤ (obj.commanded.dir +ℤ turn) 16) };
      dir_chg_count = props.turn_speed;
    }
    else record obj { dir_chg_count = left }

-- The pedals: the velocity stays within 0 and the maximum.
unfoldable pub throttle : ObjectProperties → Object → Object
unfolding ◌+ℤ◌ ◌-ℤ◌
throttle props obj =
    let faster = obj.commanded.velocity +ℤ props.max_accel in
    let slower = obj.commanded.velocity -ℤ props.max_brake in
    if bit obj.ctrls 0
    then record obj {
      commanded = record obj.commanded {
        velocity = if ltb_ℤ props.max_velocity faster then props.max_velocity else faster;
      };
    }
    else if bit obj.ctrls 1
    then record obj {
      commanded = record obj.commanded {
        velocity = if ltb_ℤ slower (pos 0) then pos 0 else slower;
      };
    }
    else obj

unfoldable pub turn_by_keys : ObjectProperties → Object → Object
unfolding steer
turn_by_keys props obj =
    if bit obj.ctrls 2
    then steer (negsuc 0) props obj
    else if bit obj.ctrls 3
    then steer (pos 1) props obj
    else obj

-- `processObjectControl` without the gun.
unfoldable pub control_motion : ObjectProperties → Object → Object
unfolding throttle turn_by_keys
control_motion props obj =
    if obj.flags.exploding then obj else turn_by_keys props (throttle props obj)
