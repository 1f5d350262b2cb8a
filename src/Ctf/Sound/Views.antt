-- ===== src/Ctf/Sound/Views.antt =====
-- What the clients see keeps the state well formed.
use spectranet.Base.{ℕ}
use spectranet.Ctf.Types.{Object, Player, Viewport}
use spectranet.Ctf.Keeps.{Keeps}
use spectranet.Ctf.Sound.{IsSound}
use spectranet.Ctf.View
use spectranet.Ctf.Sound.Store.{
  load_obj-Keeps, obj_at-Keeps, get_player-Keeps, the_player-Keeps, mod_player-Keeps,
}
use spectranet.Ctf.Sound.Messages.{post-Keeps, add_change_viewport_msg-Keeps}
use spectranet.Ctf.Sound.Ends.{send_dropped-Keeps}
use spectranet.Ctf.Sound.Store.{state_rules}

pub make_sprite_msg-Keeps :
    (clientid : ℕ) (player : Player) (obj : Object) (objid : ℕ)
    → Keeps IsSound (View.make_sprite_msg clientid player obj objid)
unfolding View.make_sprite_msg
make_sprite_msg-Keeps clientid player obj objid =
    search (state_rules, get_player-Keeps, post-Keeps) depth 40

pub make_destruction_msg-Keeps :
    (clientid : ℕ) (objid : ℕ) (reason : ℕ)
    → Keeps IsSound (View.make_destruction_msg clientid objid reason)
unfolding View.make_destruction_msg
make_destruction_msg-Keeps clientid objid reason = search (state_rules, post-Keeps) depth 40

pub object_update-Keeps :
    (clientid : ℕ) (player : Player) (objid : ℕ) (obj : Object)
    → Keeps IsSound (View.object_update clientid player objid obj)
unfolding View.object_update
object_update-Keeps clientid player objid obj =
    search (state_rules, make_sprite_msg-Keeps, make_destruction_msg-Keeps) depth 40

pub slot_update-Keeps :
    (clientid : ℕ) (player : Player) (objid : ℕ)
    → Keeps IsSound (View.slot_update clientid player objid)
unfolding View.slot_update
slot_update-Keeps clientid player objid =
    search (state_rules, load_obj-Keeps, obj_at-Keeps, object_update-Keeps) depth 40

pub all_updates-Keeps :
    (clientid : ℕ) (player : Player) → Keeps IsSound (View.all_updates clientid player)
unfolding View.all_updates
all_updates-Keeps clientid player = search (state_rules, slot_update-Keeps) depth 40

pub ask_viewport-Keeps :
    (clientid : ℕ) (player : Player) (tank : Object)
    → Keeps IsSound (View.ask_viewport clientid player tank)
unfolding View.ask_viewport
ask_viewport-Keeps clientid player tank =
    search (state_rules, mod_player-Keeps, add_change_viewport_msg-Keeps) depth 40

pub make_sprite_updates-Keeps : (clientid : ℕ) → Keeps IsSound (View.make_sprite_updates clientid)
unfolding View.make_sprite_updates
make_sprite_updates-Keeps clientid =
    search
      (
        state_rules, load_obj-Keeps, the_player-Keeps, mod_player-Keeps, all_updates-Keeps,
        ask_viewport-Keeps,
      )
      depth 40

pub send_map_msg-Keeps :
    (clientid : ℕ) (vp : Viewport) → Keeps IsSound (View.send_map_msg clientid vp)
unfolding View.send_map_msg
send_map_msg-Keeps clientid vp = search (state_rules, send_dropped-Keeps) depth 40
