-- ===== src/Ctf/View.antt =====
-- What a client sees: `objIsInView`, `makeSpriteUpdates` and the sprite messages of
-- server/object.c, and `sendMapMsg` of server/map.c.
pub mod Places
use spectranet.Base.{
  ℕ, zero, suc, ◌+◌, ◌-◌, ◌/◌, ◌%◌, ℤ, pos, negsuc, ◌-ℤ◌, leb_ℤ, ◌==ℤ◌, shr_ℤ, mod_ℤ, Bool, true,
  false, ◌&&◌, ◌||◌, Option, none, some, List, [], ◌∷◌, ◌++◌, if◌then◌else◌, get_elem?, length, ltb,
  leb, min, le16,
}
use spectranet.Ctf.Limits.{max_objs}
use spectranet.Ctf.Msg
use spectranet.Ctf.Types.{ObjType, Object, Player, Viewport, Maptile, obj_flags_byte}
use spectranet.Ctf.World.{
  maybe, Act, skip, ◌>>=◌, ◌>>◌, gets, when, deref, index, for_range, load_obj, obj_at, get_player,
  the_player, mod_player,
}
use spectranet.Ctf.Buffer.{post, add_change_viewport_msg}
use spectranet.Ctf.Matchmake.{send_dropped}

-- A position, in sixteenths of a pixel, within a viewport, in pixels.
unfoldable pub in_view : ℤ → ℤ → Viewport → Bool
in_view x y v =
    (leb_ℤ (pos v.tx) (shr_ℤ x 4) && leb_ℤ (shr_ℤ x 4) (pos v.bx))
    && (leb_ℤ (pos v.ty) (shr_ℤ y 4) && leb_ℤ (shr_ℤ y 4) (pos v.by))

unfoldable pub obj_is_in_view : Object → Viewport → Bool
unfolding in_view
obj_is_in_view obj v = in_view obj.x obj.y v

unfoldable pub obj_was_in_view : Object → Viewport → Bool
unfolding in_view
obj_was_in_view obj v = in_view obj.prevx obj.prevy v

unfoldable pub type_id : ObjType → ℕ
type_id ObjType.player = 0
type_id ObjType.foton = 1
type_id ObjType.xplode = 2
type_id ObjType.flag = 3
type_id ObjType.fuel = 4
type_id ObjType.ammo = 5

-- `SpriteMsg`: the position is relative to the viewport.
unfoldable pub sprite_msg : Viewport → Object → ℕ → List ℕ
unfolding type_id obj_flags_byte ◌-ℤ◌
sprite_msg v obj objid =
    objid
    ∷ mod_ℤ (shr_ℤ obj.x 4 -ℤ pos v.tx) 256
    ∷ mod_ℤ (shr_ℤ obj.y 4 -ℤ pos v.ty) 256
    ∷ mod_ℤ obj.commanded.dir 256
    ∷ type_id obj.type
    ∷ obj.colour
    ∷ obj_flags_byte obj.flags
    ∷ []

-- `SpriteMsg16` of 14 bytes, the last of them padding. `lives` stays uninitialised where the
-- owner's slot is NULL.
unfoldable pub sprite_msg16 : ℕ → Object → ℕ → Option Player → List ℕ
unfolding type_id obj_flags_byte
sprite_msg16 junk obj objid owner =
    objid
    ∷ mod_ℤ obj.owner 256
    ∷ (le16 (mod_ℤ obj.x 65536)
        ++ (le16 (mod_ℤ obj.y 65536)
            ++ (mod_ℤ obj.commanded.dir 256
                ∷ type_id obj.type
                ∷ obj.colour
                ∷ obj_flags_byte obj.flags
                ∷ mod_ℤ obj.hp 256
                ∷ mod_ℤ obj.ammo 256
                ∷ lives owner
                ∷ junk
                ∷ [])))
  where
    lives : Option Player → ℕ
    lives none = junk
    lives (some p) = mod_ℤ p.lives 256

unfoldable pub make_sprite_msg : ℕ → Player → Object → ℕ → Act
make_sprite_msg clientid player obj objid =
    if player.flags.spectator
    then (do
      i ← index obj.owner
      owner ← get_player i
      junk ← gets (λ w. w.junk)
      post clientid Msg.sprite_msg16 (sprite_msg16 junk obj objid owner))
    else post clientid Msg.sprite_msg (sprite_msg player.view obj objid)

-- `RemoveSpriteMsg`.
unfoldable pub make_destruction_msg : ℕ → ℕ → ℕ → Act
make_destruction_msg clientid objid reason = post clientid Msg.rm_sprite_msg (objid ∷ reason ∷ [])

-- What a client is told of one object: it was killed (1), it is there, or it left the screen (0).
unfoldable pub object_update : ℕ → Player → ℕ → Object → Act
object_update clientid player objid obj =
    if player.flags.spectator || obj_is_in_view obj player.view
    then (if obj.flags.destroyed || obj.flags.vanished
        then make_destruction_msg clientid objid 1
        else make_sprite_msg clientid player obj objid)
    else when (obj_was_in_view obj player.view) (make_destruction_msg clientid objid 0)

unfoldable pub slot_update : ℕ → Player → ℕ → Act
slot_update clientid player objid = do
  slot ← obj_at objid
  maybe slot skip (λ addr. (do obj ← load_obj addr; object_update clientid player objid obj))

unfoldable pub all_updates : ℕ → Player → Act
all_updates clientid player = for_range 0 max_objs (slot_update clientid player)

-- A tank out of its owner's view: the client is asked to change the viewport, and not again for
-- five frames.
unfoldable pub ask_viewport : ℕ → Player → Object → Act
ask_viewport clientid player tank = when (player.vpcframes ==ℤ pos 0) (do
  add_change_viewport_msg clientid (shr_ℤ tank.x 4) (shr_ℤ tank.y 4)
  mod_player clientid (λ q. record q { vpcframes = pos 5 }))

unfoldable pub make_sprite_updates : ℕ → Act
make_sprite_updates clientid = do
  mod_player clientid
      (λ q. record q { vpcframes = if q.vpcframes ==ℤ pos 0 then pos 0 else q.vpcframes -ℤ pos 1 })
  player ← the_player clientid
  maybe player.playerobj (all_updates clientid player) (λ addr. (do
    tank ← load_obj addr
    if obj_is_in_view tank player.view
        then all_updates clientid player
        else ask_viewport clientid player tank))

-- The tiles of one row that are in the viewport, from left to right, behind the message so far;
-- the flag tells that the message was cut.
unfoldable pub row_tiles : ℕ → ℕ → ℕ → List Maptile → List ℕ → List ℕ × Bool
row_tiles minx maxx dy [] msg = (msg, false)
row_tiles minx maxx dy (t ∷ ts) msg =
    let grown =
      if leb minx t.x then msg ++ (t.tile ∷ ((t.x - minx) % 256) ∷ (dy % 256) ∷ []) else msg in
    let rest = row_tiles minx maxx dy ts grown in
    if ltb t.x maxx then (if ltb 1024 (4 + length msg) then (msg, true) else rest) else (msg, false)

-- The rows from `y` on; a row without tiles is a NULL pointer, which is read.
unfoldable pub map_rows : List (List Maptile) → ℕ → ℕ → ℕ → ℕ → ℕ → List ℕ → Option (List ℕ)
unfolding row_tiles
map_rows maprow minx maxx dy y zero msg = some msg
map_rows maprow minx maxx dy y (suc rounds) msg = elim (get_elem? maprow y) [
  | none ↦ none
  | some [] ↦ none
  | some (t ∷ ts) ↦
      let (grown, cut) = row_tiles minx maxx dy (t ∷ ts) msg in
      let rest = map_rows maprow minx maxx (suc dy) (suc y) rounds grown in
      if cut then some grown else rest
]

-- The last row that is sent, exclusive.
abbrev pub rows_end : ℤ → ℕ → ℕ
rows_end (pos n) maxy = min n maxy
rows_end (negsuc n) maxy = 0

unfoldable pub send_map_msg : ℕ → Viewport → Act
send_map_msg clientid vp = do
  g ← gets (λ w. w.game_map)
  let miny = vp.ty / 8
  let maxy = rows_end g.lastrow (vp.by / 8)
  tiles ← deref (map_rows g.maprow (vp.tx / 8) (vp.bx / 8) 0 miny (maxy - miny) [])
  send_dropped clientid (1 ∷ Msg.map_msg ∷ (le16 (length tiles / 3) ++ tiles))
