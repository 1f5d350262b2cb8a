-- ===== src/Spectator/Draw.antt =====
-- Drawing sprites: drawLineGfx, initColours, addText, manageSprite, showTank, showHealthBar and
-- handlePlayerIdMsg of spectator/gfx.c, for the scale factor 1 that the program starts with.
use spectranet.Base.{
  ℕ, ◌+◌, ◌*◌, ◌/◌, ◌%◌, ◌==◌, ltb, if◌then◌else◌, ℤ, pos, ◌+ℤ◌, ◌-ℤ◌, ◌&&◌, Option, none, some,
  List, [], ◌∷◌, ◌++◌, map, get_elem?, set, replicate, bit, codes, decimal, c_text, length, ◌>>=◌,
}
use mathlib.Core.Option
use spectranet.Spectator.Icons.{
  GfxLine, icon, tank_icon, foton_icon, xplode_icon, flag_icon, fuel_icon, ammo_icon,
}
use spectranet.Spectator.Rotate.{rotate_gfx_lines}

-- Red, green and blue.
pub record Colour : Type 0 where
  pub red : ℕ
  pub green : ℕ
  pub blue : ℕ

abbrev pub make_colour : ℕ → ℕ → ℕ → Colour
make_colour r g b = record { red = r; green = g; blue = b }

-- What is put on the screen.
pub data Shape : Type 0 where
  line : ℤ → ℤ → ℤ → ℤ → Colour → Shape
  box outline : ℤ → ℤ → ℤ → ℤ → Colour → Shape
  background : Shape
  text : ℤ → ℤ → List ℕ → Shape

-- `clr`, by the numbers of the colours in gfx.h.
abbrev pub clr : List Colour
clr =
    make_colour 0 0 0
    ∷ make_colour 0 0 255
    ∷ make_colour 255 0 0
    ∷ make_colour 255 255 0
    ∷ make_colour 0 255 0
    ∷ make_colour 0 255 255
    ∷ make_colour 255 255 0
    ∷ make_colour 255 255 255
    ∷ []

abbrev pub zx_red : ℕ
zx_red = 2

abbrev pub zx_green : ℕ
zx_green = 4

abbrev pub zx_yellow : ℕ
zx_yellow = 6

abbrev pub zx_white : ℕ
zx_white = 7

abbrev draw_line : ℤ → ℤ → Colour → GfxLine → Shape
draw_line x y c l = line (l.start_x +ℤ x) (l.start_y +ℤ y) (l.end_x +ℤ x) (l.end_y +ℤ y) c

unfoldable pub draw_line_gfx : ℤ → ℤ → List GfxLine → Colour → List Shape
unfolding ◌+ℤ◌
draw_line_gfx x y lg c = map (draw_line x y c) lg

-- `SpriteMsg16`.
pub record SpriteMsg16 : Type 0 where
  pub objid : ℕ
  pub ownerid : ℕ
  pub x : ℕ
  pub y : ℕ
  pub rotation : ℕ
  pub id : ℕ
  pub colour : ℕ
  pub flags : ℕ
  pub health : ℕ
  pub ammo : ℕ
  pub lives : ℕ

-- The fields as they lie in the bytes of a message; `none` for a message that is too short.
unfoldable pub sprite_of : List ℕ → Option SpriteMsg16
sprite_of
      (objid ∷ ownerid ∷ xl ∷ xh ∷ yl ∷ yh ∷ rotation ∷ id ∷ colour ∷ flags ∷ health ∷ ammo ∷ lives
        ∷ rest) =
    some (record {
      objid = objid;
      ownerid = ownerid;
      x = xl + 256 * xh;
      y = yl + 256 * yh;
      rotation = rotation;
      id = id;
      colour = colour;
      flags = flags;
      health = health;
      ammo = ammo;
      lives = lives;
    })
sprite_of _ = none

-- The counters of the animations, the clock of what flashes, and the names of the players.
pub record Anim : Type 0 where
  pub foton_anim : ℕ
  pub xplode_anim : ℕ
  pub foton_clr : ℕ
  pub xplod_clr : ℕ
  pub flashclock : ℕ
  pub players : List (List ℕ)

-- What `initGfx` sets.
unfoldable pub init_anim : Anim
init_anim = record {
  foton_anim = 0;
  xplode_anim = 0;
  foton_clr = zx_red;
  xplod_clr = zx_yellow;
  flashclock = 0;
  players = replicate 16 (replicate 16 0);
}

-- A picture from `icon` in a colour from `clr`; `none` reads outside of one of them.
unfoldable pub picture : ℕ → ℕ → ℤ → ℤ → Option (List Shape)
unfolding icon draw_line_gfx
picture id colour x y = do
  lines ← icon id
  c ← get_elem? clr colour
  some (draw_line_gfx x y lines c)

unfoldable pub add_text : List ℕ → ℤ → ℤ → List Shape
add_text t x y = if length t == 0 then [] else text x y t ∷ []

-- The health that is shown, and its colour.
unfoldable pub shown_health : ℕ → ℕ
shown_health health = if ltb 100 health then 100 else health

unfoldable pub bar_colour : ℕ → ℕ
bar_colour h = if ltb 90 h then zx_green else if ltb 30 h then zx_yellow else zx_red

-- The bar under a tank, 32 wide at full health.
unfoldable pub show_health_bar : ℕ → ℤ → ℤ → Option (List Shape)
unfolding ◌+ℤ◌ shown_health bar_colour
show_health_bar health x y = do
  c ← get_elem? clr (bar_colour (shown_health health))
  some (box x y (x +ℤ pos (shown_health health * 32 / 100)) (y +ℤ pos 4) c ∷ [])

-- The name of a player; `none` reads outside of `players`.
unfoldable pub owner_name : List (List ℕ) → ℕ → Option (List ℕ)
owner_name players i = do
  name ← get_elem? players i
  some (if length (c_text name) == 0 then codes "Unknown!" else c_text name)

-- A tank whose player has the flag flashes.
unfoldable pub tank_colour : SpriteMsg16 → Anim → ℕ
tank_colour m a = if bit m.flags 6 && bit a.flashclock 3 then zx_white else m.colour % 8

unfoldable pub show_tank : SpriteMsg16 → Anim → Option (List Shape)
unfolding tank_colour icon draw_line_gfx owner_name add_text show_health_bar rotate_gfx_lines ◌+ℤ◌
    ◌-ℤ◌
show_tank m a = do
  c ← get_elem? clr (tank_colour m a)
  lines ← icon tank_icon
  tank ← rotate_gfx_lines lines m.rotation (pos 15) (pos 15)
  owner ← owner_name a.players m.ownerid
  bar ← show_health_bar m.health (pos (m.x / 8)) (pos (m.y / 8 + 36))
  some (
      draw_line_gfx (pos (m.x / 8)) (pos (m.y / 8)) tank c
      ++ (add_text owner (pos (m.x / 8 + 34)) (pos (m.y / 8) -ℤ pos 4)
          ++ (add_text (decimal (pos m.ammo)) (pos (m.x / 8 + 34)) (pos (m.y / 8 + 12))
              ++ ((if m.lives == 255
                    then []
                    else add_text (decimal (pos m.lives)) (pos (m.x / 8 + 34)) (pos (m.y / 8 + 30)))
                  ++ bar))))

-- The counters after a torpedo.
unfoldable pub step_foton : Anim → Anim
step_foton a = record a {
  foton_clr = (if ltb zx_white a.foton_clr then zx_red else a.foton_clr) + 1;
  foton_anim = (if ltb 3 a.foton_anim then 0 else a.foton_anim) + 1;
}

unfoldable pub show_foton : SpriteMsg16 → Anim → Option (List Shape)
unfolding picture
show_foton m a =
    picture (foton_icon + (if ltb 3 a.foton_anim then 0 else a.foton_anim))
      (if ltb zx_white a.foton_clr then zx_red else a.foton_clr) (pos (m.x / 8)) (pos (m.y / 8))

-- The counters after an explosion, whose colour is changed before it is drawn.
unfoldable pub step_xplode : Anim → Anim
step_xplode a = record a {
  xplod_clr = if a.xplod_clr == zx_yellow then zx_white else zx_yellow;
  xplode_anim = if a.xplode_anim == 0 then 1 else 0;
}

unfoldable pub show_xplode : SpriteMsg16 → Anim → Option (List Shape)
unfolding picture
show_xplode m a =
    picture (xplode_icon + a.xplode_anim) (if a.xplod_clr == zx_yellow then zx_white else zx_yellow)
      (pos (m.x / 8)) (pos (m.y / 8))

-- What a sprite draws, and the counters behind it; a kind of sprite that is not known is only
-- reported on the error output.
unfoldable pub manage_sprite : SpriteMsg16 → Anim → Option (Anim × List Shape)
unfolding show_tank show_foton step_foton show_xplode step_xplode picture
manage_sprite m a =
    if m.id == 0
    then Option.map (λ l. (a, l)) (show_tank m a)
    else if m.id == 1
    then Option.map (λ l. (step_foton a, l)) (show_foton m a)
    else if m.id == 2
    then Option.map (λ l. (step_xplode a, l)) (show_xplode m a)
    else if m.id == 3
    then Option.map (λ l. (a, l)) (picture flag_icon (m.colour % 8) (pos (m.x / 8)) (pos (m.y / 8)))
    else if m.id == 4
    then Option.map (λ l. (a, l)) (picture fuel_icon zx_green (pos (m.x / 8)) (pos (m.y / 8)))
    else if m.id == 5
    then Option.map (λ l. (a, l)) (picture ammo_icon zx_green (pos (m.x / 8)) (pos (m.y / 8)))
    else some (a, [])

-- A name joins the table; `none` writes outside of it.
unfoldable pub handle_player_id : List ℕ → Anim → Option Anim
handle_player_id [] a = none
handle_player_id (i ∷ name) a =
    if ltb i 16 then some (record a { players = set a.players i name }) else none
