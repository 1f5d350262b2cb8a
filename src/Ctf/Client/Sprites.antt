-- ===== src/Ctf/Client/Sprites.antt =====
-- The sprites on a player's screen: putSprite, moveSprite, manageSprite, removeSprite and
-- removeAllSprites of examples/ctfgame/client/sprites.c. The calls of the SP1 library are kept as a
-- list, oldest first; a sprite that sp1_CreateSpr makes is named by how many were made before it.
pub mod Table
pub mod Moves
pub mod Shown
pub mod Tiles
use spectranet.Base.{
  ℕ, zero, suc, ◌+◌, ◌*◌, ◌%◌, ◌==◌, ltb, if◌then◌else◌, ℤ, pos, ◌+ℤ◌, ◌-ℤ◌, ◌&&◌, Option, none,
  some, List, [], ◌∷◌, ◌++◌, get_elem?, set, replicate, length, bit, ◌>>=◌,
}

-- `SpriteMsg`.
pub record SpriteMsg : Type 0 where
  pub objid : ℕ
  pub x : ℕ
  pub y : ℕ
  pub rotation : ℕ
  pub id : ℕ
  pub colour : ℕ
  pub flags : ℕ

-- A graphic, by its place in `spritelist`, and an offset into it.
pub record Frame : Type 0 where
  pub graphic : ℕ
  pub offset : ℤ

abbrev frame : ℕ → ℤ → Frame
frame g o = record { graphic = g; offset = o }

pub data Call : Type 0 where
  create : ℕ → Call
  move_pix : ℕ → Frame → ℕ → ℕ → Call
  colour_spr : ℕ → ℕ → ℕ → Call
  move_off delete : ℕ → Call
  invalidate : Call

-- `sprtbl` and the other globals; `made` counts the sprites that were made.
pub record Sprites : Type 0 where
  pub sprtbl : List (Option ℕ)
  pub made : ℕ
  pub foton_frame : ℕ
  pub foton_ptr : ℤ
  pub foton_anim_dir : ℕ
  pub foton_colour : ℕ
  pub xplode_frame : ℕ
  pub attr : ℕ
  pub amask : ℕ
  pub flashclk : ℕ
  pub calls : List Call

-- The globals at the start and what `initSpriteLib` sets.
unfoldable pub init_sprite_lib : Sprites
init_sprite_lib = record {
  sprtbl = replicate 48 none;
  made = 0;
  foton_frame = 0;
  foton_ptr = pos 0;
  foton_anim_dir = 0;
  foton_colour = 0;
  xplode_frame = 0;
  attr = 0;
  amask = 0;
  flashclk = 0;
  calls = [];
}

abbrev log : List Call → Sprites → Sprites
log l t = record t { calls = t.calls ++ l }

-- `spritelist[id]`; `none` reads behind it.
abbrev pub graphic_of : ℕ → Option Frame
graphic_of id = if ltb id 6 then some (frame id (pos 0)) else none

-- A sprite for an object that has none.
unfoldable pub put_sprite : SpriteMsg → Sprites → Option Sprites
put_sprite m t = do
  f ← graphic_of m.id
  some (
      log (create t.made ∷ move_pix t.made f m.x m.y ∷ colour_spr t.made m.colour 0xb8 ∷ [])
        (record t {
          sprtbl = set t.sprtbl m.objid (some t.made);
          made = t.made + 1;
          attr = m.colour;
          amask = 0xb8;
        }))

-- An explosion goes back and forth between two frames and colours.
unfoldable pub move_xplode : SpriteMsg → ℕ → Sprites → Sprites
move_xplode m s t =
    let colour = if t.xplode_frame == 0 then 0x42 else 0x46 in
    log
      (colour_spr s colour t.amask
        ∷ move_pix s (frame 2 (if t.xplode_frame == 0 then pos 0 else pos 96)) m.x m.y
        ∷ [])
      (record t { attr = colour; xplode_frame = if t.xplode_frame == 0 then 1 else 0 })

-- The torpedoes share one animation, which goes up and down through four frames.
unfoldable pub step_foton : Sprites → Sprites
unfolding ◌+ℤ◌ ◌-ℤ◌
step_foton t = record t {
  foton_frame =
      if t.foton_anim_dir == 0 then (t.foton_frame + 1) % 256 else (t.foton_frame + 255) % 256;
  foton_ptr = if t.foton_anim_dir == 0 then t.foton_ptr +ℤ pos 96 else t.foton_ptr -ℤ pos 96;
  foton_anim_dir =
      if t.foton_anim_dir == 0
      then (if (t.foton_frame + 1) % 256 == 3 then 1 else t.foton_anim_dir)
      else if (t.foton_frame + 255) % 256 == 0
      then 0
      else t.foton_anim_dir;
}

unfoldable pub move_foton : SpriteMsg → ℕ → Sprites → Sprites
unfolding step_foton
move_foton m s t =
    let stepped = step_foton t in
    let colour = (t.foton_colour + 1) % 8 in
    log (colour_spr s (colour + 0x40) t.amask ∷ move_pix s (frame 1 stepped.foton_ptr) m.x m.y ∷ [])
      (record stepped { foton_colour = colour; attr = colour + 0x40 })

-- `tankdir[rotation]`, the graphic of a tank that looks this way; `none` reads behind the table.
abbrev pub tank_frame : ℕ → Option Frame
tank_frame rotation = if ltb rotation 16 then some (frame 0 (pos (96 * rotation))) else none

-- A tank, which flashes while it has the flag.
unfoldable pub move_player : SpriteMsg → ℕ → Sprites → Option Sprites
move_player m s t =
    let colour = if bit m.flags 6 && bit t.flashclk 3 then 0x47 else m.colour in
    do
      f ← tank_frame m.rotation
      some (
          log (colour_spr s colour t.amask ∷ move_pix s f m.x m.y ∷ [])
            (record t { attr = colour }))

unfoldable pub move_other : SpriteMsg → ℕ → Sprites → Option Sprites
move_other m s t = do f ← graphic_of m.id; some (log (move_pix s f m.x m.y ∷ []) t)

unfoldable pub move_sprite : SpriteMsg → ℕ → Sprites → Option Sprites
unfolding move_xplode move_foton move_player move_other
move_sprite m s t =
    if m.id == 2
    then some (move_xplode m s t)
    else if m.id == 1
    then some (move_foton m s t)
    else if m.id == 0
    then move_player m s t
    else move_other m s t

-- What a slot of the table asks for.
unfoldable pub manage_slot : SpriteMsg → Sprites → Option ℕ → Option Sprites
unfolding put_sprite move_sprite
manage_slot m t none = put_sprite m t
manage_slot m t (some s) = move_sprite m s t

-- `none` reads or writes outside of one of the tables.
unfoldable pub manage_sprite : SpriteMsg → Sprites → Option Sprites
unfolding manage_slot
manage_sprite m t = get_elem? t.sprtbl m.objid >>= manage_slot m t

-- A sprite that is there leaves the screen and is given back.
unfoldable pub remove_slot : ℕ → Sprites → Option ℕ → Sprites
remove_slot objid t none = t
remove_slot objid t (some s) =
    log (move_off s ∷ delete s ∷ []) (record t { sprtbl = set t.sprtbl objid none })

unfoldable pub remove_sprite : ℕ → Sprites → Option Sprites
unfolding remove_slot
remove_sprite objid t = do slot ← get_elem? t.sprtbl objid; some (remove_slot objid t slot)

-- The loop of `removeAllSprites` over the slots from `i` on.
unfoldable pub remove_from : ℕ → ℕ → Sprites → Option Sprites
unfolding remove_sprite
remove_from zero i t = some t
remove_from (suc rounds) i t = remove_sprite i t >>= remove_from rounds (suc i)

unfoldable pub remove_all_sprites : Sprites → Option Sprites
unfolding remove_from
remove_all_sprites t = do cleared ← remove_from 48 0 t; some (log (invalidate ∷ []) cleared)

-- The colour of a tile of the map, by its character.
unfoldable pub tile_colour : ℕ → ℕ
tile_colour c =
    if c == b's'
    then 6
    else if c == b'a'
    then 8 + 5
    else if c == b'b'
    then 48 + 2
    else if c == b'f'
    then 2
    else if c == b'g'
    then 2
    else 1

-- The tiles of a map message: row, column, colour and character, from their number and the bytes
-- behind it; `none` reads behind the message.
unfoldable pub draw_tiles : ℕ → List ℕ → Option (List (ℕ × ℕ × ℕ × ℕ))
unfolding tile_colour
draw_tiles zero bytes = some []
draw_tiles (suc n) (tile ∷ x ∷ y ∷ bytes) = do
  rest ← draw_tiles n bytes
  some ((y, x, tile_colour tile, tile) ∷ rest)
draw_tiles (suc n) _ = none

unfoldable pub draw_map : List ℕ → Option (List (ℕ × ℕ × ℕ × ℕ))
unfolding draw_tiles
draw_map (low ∷ high ∷ bytes) = draw_tiles (low + 256 * high) bytes
draw_map _ = none
