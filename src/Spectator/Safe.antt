-- ===== src/Spectator/Safe.antt =====
-- Drawing the sprites stays within the tables of pictures, colours, turns and names.
use spectranet.Base.{
  ℕ, ◌+◌, ◌/◌, ◌%◌, ◌==◌, ◌≤◌, ◌<◌, ◌≡◌, refl, arith, ltb, if◌then◌else◌, ℤ, pos, Option, none,
  some, List, ◌∷◌, length, length-set, get_elem?, Gives, Gives-bind, Gives-if, Gives-map,
  get_elem?-Gives,
}
use mathlib.Core.Option
use spectranet.Spectator.Icons.{icon, icons}
use spectranet.Spectator.Rotate.{rotation, rotate_gfx_lines}
use spectranet.Spectator.Draw.{
  SpriteMsg16, Anim, Shape, clr, init_anim, picture, shown_health, bar_colour, show_health_bar,
  owner_name, tank_colour, show_tank, step_foton, show_foton, step_xplode, show_xplode,
  manage_sprite, handle_player_id, zx_yellow, zx_white, zx_red,
}

-- The counters are where the animations take them, and there are 16 names.
pub record IsAnim (a : Anim) : Type 0 where
  pub foton : a.foton_anim ≤ 4
  pub colour : a.foton_clr ≤ 8
  pub xplode : a.xplode_anim ≤ 1
  pub names : length a.players ≡ 16

-- A tank has an owner and one of the 16 directions.
abbrev pub Fits : SpriteMsg16 → Type 0
Fits m = m.id ≡ 0 → (m.ownerid < 16) × (m.rotation < 16)

abbrev pub Any {ℓ} : {A : Type ℓ} → A → Type 0
Any a = Unit {0}

pub init_anim-IsAnim : IsAnim init_anim
unfolding init_anim
init_anim-IsAnim = record {
  foton = omega arith;
  colour = omega arith;
  xplode = omega arith;
  names = refl;
}

colours : (i : ℕ) → i < 8 → Gives Any (get_elem? clr i)
colours i h = get_elem?-Gives clr i h

pub picture-Gives : (id c : ℕ) (x y : ℤ) → id < 14 → c < 8 → Gives Any (picture id c x y)
unfolding picture icon
picture-Gives id c x y h k =
    Gives-bind Any Any (icon id) _ (get_elem?-Gives icons id h)
      (λ l u. Gives-bind Any Any (get_elem? clr c) _ (colours c k) (λ d v. tt))

bar_colour-bound : (h : ℕ) → bar_colour h < 8
unfolding bar_colour
bar_colour-bound h = ground arith

bar-Gives : (health : ℕ) (x y : ℤ) → Gives Any (show_health_bar health x y)
unfolding show_health_bar
bar-Gives health x y =
    Gives-bind Any Any _ _ (colours _ (bar_colour-bound (shown_health health))) (λ c u. tt)

owner_name-Gives :
    (players : List (List ℕ)) (i : ℕ)
    → length players ≡ 16
    → i < 16
    → Gives Any (owner_name players i)
unfolding owner_name
owner_name-Gives players i e h =
    Gives-bind Any Any (get_elem? players i) _ (get_elem?-Gives players i (omega arith)) (λ n u. tt)

tank_colour-bound : (m : SpriteMsg16) (a : Anim) → tank_colour m a < 8
unfolding tank_colour
tank_colour-bound m a = ground arith

show_tank-Gives :
    (m : SpriteMsg16) (a : Anim)
    → m.ownerid < 16
    → m.rotation < 16
    → IsAnim a
    → Gives Any (show_tank m a)
unfolding show_tank icon rotate_gfx_lines
show_tank-Gives m a owner turn i =
    Gives-bind Any Any _ _ (colours _ (tank_colour-bound m a)) (λ c u.
      Gives-bind Any Any _ _
        (Gives-map Any _ (get_elem? rotation m.rotation) (get_elem?-Gives rotation m.rotation turn))
        (λ t v.
          Gives-bind Any Any _ _ (owner_name-Gives a.players m.ownerid i.names owner)
            (λ n w. Gives-bind Any Any _ _ (bar-Gives m.health _ _) (λ b z. tt))))

abbrev pub IsAnimOf : Anim × List Shape → Type 0
IsAnimOf (a, l) = IsAnim a

-- A sprite that draws something leaves counters that are in range.
steady :
    (a : Anim) (o : Option (List Shape))
    → IsAnim a
    → Gives Any o
    → Gives IsAnimOf (Option.map (λ l. (a, l)) o)
steady a none i g = elim g [ ]
steady a (some l) i g = i

step_foton-IsAnim : (a : Anim) → IsAnim a → IsAnim (step_foton a)
unfolding step_foton
step_foton-IsAnim a i =
    let f = i.foton in
    let c = i.colour in
    record { foton = ground arith; colour = ground arith; xplode = i.xplode; names = i.names }

step_xplode-IsAnim : (a : Anim) → IsAnim a → IsAnim (step_xplode a)
unfolding step_xplode
step_xplode-IsAnim a i = record {
  foton = i.foton;
  colour = i.colour;
  xplode = ground arith;
  names = i.names;
}

pub manage_sprite-IsAnim :
    (m : SpriteMsg16) (a : Anim) → Fits m → IsAnim a → Gives IsAnimOf (manage_sprite m a)
unfolding manage_sprite show_foton show_xplode
manage_sprite-IsAnim m a fits i =
    let f = i.foton in
    let c = i.colour in
    let e = i.xplode in
    let x = pos (m.x / 8) in
    let y = pos (m.y / 8) in
    Gives-if IsAnimOf (m.id == 0) _ _
      (λ h.
        (let (owner, turn) = fits (ground arith) in
          steady a _ i (show_tank-Gives m a owner turn i)))
      (λ h0.
        Gives-if IsAnimOf (m.id == 1) _ _
          (λ h. steady (step_foton a) _ (step_foton-IsAnim a i) (
            picture-Gives (5 + (if ltb 3 a.foton_anim then 0 else a.foton_anim))
              (if ltb zx_white a.foton_clr then zx_red else a.foton_clr) x y (ground arith)
              (ground arith)))
          (λ h1.
            Gives-if IsAnimOf (m.id == 2) _ _
              (λ h. steady (step_xplode a) _ (step_xplode-IsAnim a i) (
                picture-Gives (9 + a.xplode_anim)
                  (if a.xplod_clr == zx_yellow then zx_white else zx_yellow) x y (omega arith)
                  (ground arith)))
              (λ h2.
                Gives-if IsAnimOf (m.id == 3) _ _
                  (λ h.
                    steady a _ i (picture-Gives 11 (m.colour % 8) x y (omega arith) (omega arith)))
                  (λ h3.
                    Gives-if IsAnimOf (m.id == 4) _ _
                      (λ h.
                        steady a (picture 12 4 x y) i
                          (picture-Gives 12 4 x y (omega arith) (omega arith)))
                      (λ h4.
                        Gives-if IsAnimOf (m.id == 5) _ _
                          (λ h.
                            steady a (picture 13 4 x y) i
                              (picture-Gives 13 4 x y (omega arith) (omega arith)))
                          (λ h5. i))))))

pub handle_player_id-IsAnim :
    (i : ℕ) (name : List ℕ) (a : Anim)
    → i < 16
    → IsAnim a
    → Gives IsAnim (handle_player_id (i ∷ name) a)
unfolding handle_player_id
handle_player_id-IsAnim i name a h k =
    let n = k.names in
    let l = length-set a.players i name in
    Gives-if IsAnim (ltb i 16) _ _
      (λ e. record { foton = k.foton; colour = k.colour; xplode = k.xplode; names = omega arith })
      (λ e. let bad : 1 ≤ 0 = ground arith in elim bad [ ])
