-- ===== src/Ctf/Client/Sprites/Moves.antt =====
-- What each operation of the client leaves of the table of sprites.
use spectranet.Base.{
  ℕ, zero, suc, ◌+◌, ◌==◌, ◌≤◌, ◌<◌, ◌≡◌, refl, ap, arith, ltb, true, false, Bool, Option, none,
  some, List, [], ◌∷◌, ◌++◌, get_elem?, set, length, length-set, Gives, Gives-bind, Gives-if,
  Gives-at,
}
use spectranet.Ctf.Client.Sprites.{
  SpriteMsg, Sprites, Call, log, graphic_of, tank_frame, create, move_pix, colour_spr, move_off,
  delete, put_sprite, move_xplode, step_foton, move_foton, move_player, move_other, move_sprite,
  manage_slot, manage_sprite, remove_slot, remove_sprite,
}
use spectranet.Ctf.Client.Sprites.Table.{
  IsTable, deleted, live, deleted-append, live-filled, live-emptied, step_foton-IsFoton,
}

-- A message that the tables have a place for.
abbrev pub Fits : SpriteMsg → Type 0
Fits m = (m.objid < 48) × (m.id < 6) × (m.rotation < 16)

-- Which objects have a sprite.
unfoldable pub present : List (Option ℕ) → List Bool
present [] = []
present (none ∷ l) = false ∷ present l
present (some s ∷ l) = true ∷ present l

present-filled :
    (l : List (Option ℕ)) (i s : ℕ) → present (set l i (some s)) ≡ set (present l) i true
unfolding present
present-filled [] i s = refl
present-filled (none ∷ l) zero s = refl
present-filled (some r ∷ l) zero s = refl
present-filled (none ∷ l) (suc i) s = ap (λ k. false ∷ k) (present-filled l i s)
present-filled (some r ∷ l) (suc i) s = ap (λ k. true ∷ k) (present-filled l i s)

present-emptied : (l : List (Option ℕ)) (i : ℕ) → present (set l i none) ≡ set (present l) i false
unfolding present
present-emptied [] i = refl
present-emptied (none ∷ l) zero = refl
present-emptied (some r ∷ l) zero = refl
present-emptied (none ∷ l) (suc i) = ap (λ k. false ∷ k) (present-emptied l i)
present-emptied (some r ∷ l) (suc i) = ap (λ k. true ∷ k) (present-emptied l i)

present-full :
    (l : List (Option ℕ)) (i s : ℕ)
    → get_elem? l i ≡ some (some s)
    → present l ≡ set (present l) i true
unfolding present
present-full [] i s e = cc
present-full (none ∷ l) zero s e = cc
present-full (some r ∷ l) zero s e = refl
present-full (none ∷ l) (suc i) s e = ap (λ k. false ∷ k) (present-full l i s e)
present-full (some r ∷ l) (suc i) s e = ap (λ k. true ∷ k) (present-full l i s e)

present-free :
    (l : List (Option ℕ)) (i : ℕ) → get_elem? l i ≡ some none → present l ≡ set (present l) i false
unfolding present
present-free [] i e = cc
present-free (none ∷ l) zero e = refl
present-free (some r ∷ l) zero e = cc
present-free (none ∷ l) (suc i) e = ap (λ k. false ∷ k) (present-free l i e)
present-free (some r ∷ l) (suc i) e = ap (λ k. true ∷ k) (present-free l i e)

-- After a message for object `i` the table is sound, and tells that the object has a sprite or not.
abbrev pub Leaves : Sprites → ℕ → Bool → Sprites → Type 0
Leaves t i b u = IsTable u × (present u.sprtbl ≡ set (present t.sprtbl) i b)

-- Calls that give no sprite back leave the balance.
quiet :
    (t : Sprites) (l : List Call)
    → deleted l ≡ 0
    → IsTable t
    → t.made ≡ deleted (t.calls ++ l) + live t.sprtbl
quiet t l q i = let balance = i.balance in let both = deleted-append t.calls l in omega arith

graphic_of-Gives : (id : ℕ) → id < 6 → Gives (λ f. Unit {0}) (graphic_of id)
graphic_of-Gives id low =
    Gives-if (λ f. Unit {0}) (ltb id 6) _ none (λ h. tt)
      (λ h. (let bad : 1 ≤ 0 = ground arith in elim bad [ ]))

tank_frame-Gives : (rotation : ℕ) → rotation < 16 → Gives (λ f. Unit {0}) (tank_frame rotation)
tank_frame-Gives rotation low =
    Gives-if (λ f. Unit {0}) (ltb rotation 16) _ none (λ h. tt)
      (λ h. (let bad : 1 ≤ 0 = ground arith in elim bad [ ]))

put_sprite-Leaves :
    (m : SpriteMsg) (t : Sprites)
    → m.id < 6
    → get_elem? t.sprtbl m.objid ≡ some none
    → IsTable t
    → Gives (Leaves t m.objid true) (put_sprite m t)
unfolding put_sprite deleted
put_sprite-Leaves m t low free i =
    let size = i.size in
    let same = length-set t.sprtbl m.objid (some t.made) in
    let more = live-filled t.sprtbl m.objid t.made free in
    Gives-bind (λ f. Unit {0}) (Leaves t m.objid true) (graphic_of m.id) _
      (graphic_of-Gives m.id low)
      (λ f u.
        let calm =
          quiet t (create t.made ∷ move_pix t.made f m.x m.y ∷ colour_spr t.made m.colour 0xb8 ∷ [])
            refl i in
        (
          record {
            size = omega arith;
            foton = i.foton;
            colour = i.colour;
            xplode = i.xplode;
            balance = omega arith;
          },
          present-filled t.sprtbl m.objid t.made,
        ))

-- A sprite of the table that is moved.
module _ (m : SpriteMsg) (s : ℕ) (t : Sprites) (at : get_elem? t.sprtbl m.objid ≡ some (some s))
    (i : IsTable t) where
  kept : present t.sprtbl ≡ set (present t.sprtbl) m.objid true
  kept = present-full t.sprtbl m.objid s at

  move_xplode-Leaves : Leaves t m.objid true (move_xplode m s t)
  unfolding move_xplode deleted
  move_xplode-Leaves = (
    record {
      size = i.size;
      foton = i.foton;
      colour = i.colour;
      xplode = ground arith;
      balance = quiet t _ refl i;
    },
    kept,
  )

  move_foton-Leaves : Leaves t m.objid true (move_foton m s t)
  unfolding move_foton step_foton deleted
  move_foton-Leaves = (
    record {
      size = i.size;
      foton = step_foton-IsFoton t i.foton;
      colour = omega arith;
      xplode = i.xplode;
      balance = quiet t _ refl i;
    },
    kept,
  )

  moved_only :
      (l : List Call) (a : ℕ)
      → deleted l ≡ 0
      → Leaves t m.objid true (log l (record t { attr = a }))
  moved_only l a q = (
    record {
      size = i.size;
      foton = i.foton;
      colour = i.colour;
      xplode = i.xplode;
      balance = quiet t l q i;
    },
    kept,
  )

  move_player-Leaves : m.rotation < 16 → Gives (Leaves t m.objid true) (move_player m s t)
  unfolding move_player deleted
  move_player-Leaves turn =
      Gives-bind (λ f. Unit {0}) (Leaves t m.objid true) (tank_frame m.rotation) _
        (tank_frame-Gives m.rotation turn) (λ f u. moved_only _ _ refl)

  move_other-Leaves : m.id < 6 → Gives (Leaves t m.objid true) (move_other m s t)
  unfolding move_other deleted
  move_other-Leaves low =
      Gives-bind (λ f. Unit {0}) (Leaves t m.objid true) (graphic_of m.id) _
        (graphic_of-Gives m.id low) (λ f u. moved_only _ t.attr refl)

  move_sprite-Leaves :
      m.id < 6 → m.rotation < 16 → Gives (Leaves t m.objid true) (move_sprite m s t)
  unfolding move_sprite
  move_sprite-Leaves low turn =
      Gives-if (Leaves t m.objid true) (m.id == 2) _ _ (λ h. move_xplode-Leaves)
        (λ h2.
          Gives-if (Leaves t m.objid true) (m.id == 1) _ _ (λ h. move_foton-Leaves)
            (λ h1.
              Gives-if (Leaves t m.objid true) (m.id == 0) _ _ (λ h. move_player-Leaves turn)
                (λ h0. move_other-Leaves low)))

manage_slot-Leaves :
    (m : SpriteMsg) (t : Sprites) (slot : Option ℕ)
    → get_elem? t.sprtbl m.objid ≡ some slot
    → m.id < 6
    → m.rotation < 16
    → IsTable t
    → Gives (Leaves t m.objid true) (manage_slot m t slot)
unfolding manage_slot
manage_slot-Leaves m t none at low turn i = put_sprite-Leaves m t low at i
manage_slot-Leaves m t (some s) at low turn i = move_sprite-Leaves m s t at i low turn

-- An item at a place within a list.
found : {A : Type 0} (l : List A) (i : ℕ) → i < length l → (a : A) × (get_elem? l i ≡ some a)
found [] i h = let bad : 1 ≤ 0 = omega arith in elim bad [ ]
found (x ∷ l) zero h = (x, refl)
found (x ∷ l) (suc i) h = found l i (omega arith)

pub manage_sprite-Leaves :
    (m : SpriteMsg) (t : Sprites)
    → Fits m
    → IsTable t
    → Gives (Leaves t m.objid true) (manage_sprite m t)
unfolding manage_sprite
manage_sprite-Leaves m t (in_table, low, turn) i =
    let size = i.size in
    let (slot, at) = found t.sprtbl m.objid (omega arith) in
    Gives-at (Leaves t m.objid true) (get_elem? t.sprtbl m.objid) _ at
      (manage_slot-Leaves m t slot at low turn i)

remove_slot-Leaves :
    (objid : ℕ) (t : Sprites) (slot : Option ℕ)
    → get_elem? t.sprtbl objid ≡ some slot
    → IsTable t
    → Leaves t objid false (remove_slot objid t slot)
unfolding remove_slot deleted
remove_slot-Leaves objid t none at i = (i, present-free t.sprtbl objid at)
remove_slot-Leaves objid t (some s) at i =
    let size = i.size in
    let balance = i.balance in
    let same = length-set t.sprtbl objid none in
    let fewer = live-emptied t.sprtbl objid s at in
    let both = deleted-append t.calls (move_off s ∷ delete s ∷ []) in
    (
      record {
        size = omega arith;
        foton = i.foton;
        colour = i.colour;
        xplode = i.xplode;
        balance = omega arith;
      },
      present-emptied t.sprtbl objid,
    )

pub remove_sprite-Leaves :
    (objid : ℕ) (t : Sprites)
    → objid < 48
    → IsTable t
    → Gives (Leaves t objid false) (remove_sprite objid t)
unfolding remove_sprite
remove_sprite-Leaves objid t low i =
    let size = i.size in
    let (slot, at) = found t.sprtbl objid (omega arith) in
    Gives-at (Leaves t objid false) (get_elem? t.sprtbl objid) _ at
      (remove_slot-Leaves objid t slot at i)
