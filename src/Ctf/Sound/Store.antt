-- ===== src/Ctf/Sound/Store.antt =====
-- Each write to the state keeps it well formed.
use spectranet.Base.{
  ℕ, zero, suc, ◌<◌, ◌≡◌, refl, subst, Option, none, some, List, [], ◌∷◌, ◌++◌, length, set,
  length-set, length-append, get_elem?, arith, ℤ, Bool,
}
use spectranet.Ctf.Types.{Object, Player, MapXy, Ping, PowerSpawn, SockAddr}
use spectranet.Ctf.World.{
  World, MsgBuf, load_obj, store_obj, mod_obj, alloc_obj, free_obj, obj_at, set_obj_at, get_player,
  the_player, set_player, mod_player, sendto, rand, ◌>>=◌, modify, gets, deref, fault, pure,
}
use spectranet.Ctf.Buffer.{set_buf}
use spectranet.Ctf.Keeps.{Keeps, After, Keeps-modify, keeps_rules}
use spectranet.Ctf.Sound.{IsSound, IsBuf, IsPlayer, IsSpawn, All, Slot, All-set, All-append}

pub store_obj-Keeps : (p : ℕ) (o : Object) → Keeps IsSound (store_obj p o)
unfolding store_obj
store_obj-Keeps p o = search keeps_rules

pub load_obj-Keeps : (p : ℕ) → Keeps IsSound (load_obj p)
unfolding load_obj
load_obj-Keeps p = search keeps_rules

pub mod_obj-Keeps : (p : ℕ) (f : Object → Object) → Keeps IsSound (mod_obj p f)
unfolding mod_obj
mod_obj-Keeps p f = search (keeps_rules, load_obj-Keeps, store_obj-Keeps)

pub alloc_obj-Keeps : (o : Object) → Keeps IsSound (alloc_obj o)
unfolding alloc_obj
alloc_obj-Keeps o = record { at = λ w h. h }

pub free_obj-Keeps : (p : ℕ) → Keeps IsSound (free_obj p)
unfolding free_obj
free_obj-Keeps p = search keeps_rules

pub obj_at-Keeps : (i : ℕ) → Keeps IsSound (obj_at i)
unfolding obj_at
obj_at-Keeps i = search keeps_rules

set_objlist-IsSound :
    (l : List (Option ℕ)) (w : World)
    → length l ≡ length w.objlist
    → IsSound w
    → IsSound (record w { objlist = l })
set_objlist-IsSound l w e h = ground arith

pub set_obj_at-Keeps : (i : ℕ) (p : Option ℕ) → Keeps IsSound (set_obj_at i p)
unfolding set_obj_at
set_obj_at-Keeps i p = Keeps-modify _ (λ w h. set_objlist-IsSound _ w (length-set w.objlist i p) h)

pub get_player-Keeps : (i : ℕ) → Keeps IsSound (get_player i)
unfolding get_player
get_player-Keeps i = search keeps_rules

pub the_player-Keeps : (i : ℕ) → Keeps IsSound (the_player i)
unfolding the_player
the_player-Keeps i = search (keeps_rules, get_player-Keeps)

set_players-IsSound :
    (i : ℕ) (p : Option Player) (w : World)
    → Slot IsPlayer p
    → IsSound w
    → IsSound (record w { players = set w.players i p })
set_players-IsSound i p w ok h =
    ground (arith, length-set w.players i p, All-set (Slot IsPlayer) w.players i p h.teams ok)

pub set_player-Keeps :
    (i : ℕ) (p : Option Player) → Slot IsPlayer p → Keeps IsSound (set_player i p)
unfolding set_player
set_player-Keeps i p ok = Keeps-modify _ (λ w h. set_players-IsSound i p w ok h)

-- What the slot of a well-formed state holds.
pub All-get :
    {A : Type 0} (P : A → Type 0) (xs : List (Option A)) (i : ℕ) {o : Option A}
    → All (Slot P) xs
    → get_elem? xs i ≡ some o
    → Slot P o
All-get P [] i h e = cc
All-get P (x ∷ xs) zero h e = let same : x ≡ _ = ground arith in subst (Slot P) same h.0
All-get P (x ∷ xs) (suc i) h e = All-get P xs i h.1 e

pub mod_player-Keeps :
    (i : ℕ) (f : Player → Player)
    → ((p : Player) → IsPlayer p → IsPlayer (f p))
    → Keeps IsSound (mod_player i f)
unfolding mod_player the_player get_player set_player ◌>>=◌ modify gets deref fault pure
mod_player-Keeps i f ok = record { at = λ w h. go w h (get_elem? w.players i) refl }
  where
    go :
        (w : World)
        → IsSound w
        → (o : Option (Option Player)) → get_elem? w.players i ≡ o
        → After IsSound (mod_player i f w)
    go w h none e = rw (e, mod_player) tt
    go w h (some none) e = rw e tt
    go w h (some (some p)) e =
        rw e
          (set_players-IsSound i (some (f p)) w (ok p (All-get IsPlayer w.players i h.teams e)) h)

pub sendto-Keeps : (a : SockAddr) (bs : List ℕ) → Keeps IsSound (sendto a bs)
unfolding sendto
sendto-Keeps a bs = record { at = λ w h. ground arith }

pub rand-Keeps : Keeps IsSound rand
unfolding rand
rand-Keeps = record { at = λ w h. h }

pub set_buf-Keeps : (i : ℕ) (b : Option MsgBuf) → Slot IsBuf b → Keeps IsSound (set_buf i b)
unfolding set_buf
set_buf-Keeps i b ok = Keeps-modify _ (λ w h.
    ground (arith, length-set w.player_buf i b, All-set (Slot IsBuf) w.player_buf i b h.bufs ok))

pub set_objlist-IsSound_lem :
    (f : List (Option ℕ) → List (Option ℕ))
    → ((l : List (Option ℕ)) → length (f l) ≡ length l)
    → Keeps IsSound (modify (λ w. record w { objlist = f w.objlist }))
set_objlist-IsSound_lem f e = Keeps-modify _ (λ w h. set_objlist-IsSound _ w (e w.objlist) h)

-- The arrays of which only the size matters.
pub set_cliaddr-IsSound :
    (i : ℕ) (a : Option SockAddr) (w : World)
    → IsSound w
    → IsSound (record w { cliaddr = set w.cliaddr i a })
set_cliaddr-IsSound i a w h = ground (arith, length-set w.cliaddr i a)

pub set_pingdata-IsSound :
    (i : ℕ) (d : Ping) (w : World)
    → IsSound w
    → IsSound (record w { pingdata = set w.pingdata i d })
set_pingdata-IsSound i d w h = ground (arith, length-set w.pingdata i d)

pub set_dead-IsSound :
    (i : ℕ) (p : Option Player) (w : World)
    → IsSound w
    → IsSound (record w { dead_players = set w.dead_players i p })
set_dead-IsSound i p w h = ground (arith, length-set w.dead_players i p)

pub bury-IsSound :
    (i : ℕ) (p : Option Player)
    → i < 16
    → (w : World) → IsSound w
    → IsSound (record w { dead_players = set w.dead_players i p; dead_player_idx = suc i })
bury-IsSound i p lt w h = ground (arith, length-set w.dead_players i p)

pub set_flag_taken-IsSound :
    (i : ℕ) (b : Bool) (w : World)
    → IsSound w
    → IsSound (record w { flag_taken = set w.flag_taken i b })
set_flag_taken-IsSound i b w h = ground (arith, length-set w.flag_taken i b)

pub set_teamscore-IsSound :
    (i : ℕ) (s : ℤ) (w : World) → IsSound w → IsSound (record w { teamscore = set w.teamscore i s })
set_teamscore-IsSound i s w h = ground (arith, length-set w.teamscore i s)

pub set_flagloc-IsSound :
    (i : ℕ) (xy : MapXy) (w : World)
    → IsSound w
    → IsSound (record w { flagloc = set w.flagloc i xy })
set_flagloc-IsSound i xy w h = ground (arith, length-set w.flagloc i xy)

pub set_powerups-IsSound :
    (i : ℕ) (s : PowerSpawn)
    → IsSpawn s
    → (w : World) → IsSound w
    → IsSound (record w { powerups = set w.powerups i s })
set_powerups-IsSound i s ok w h =
    ground (arith, length-set w.powerups i s, All-set IsSpawn w.powerups i s h.spawns ok)

pub add_powerup-IsSound :
    (s : PowerSpawn) (w : World)
    → IsSpawn s
    → length w.powerups < 20
    → IsSound w
    → IsSound (record w { powerups = w.powerups ++ (s ∷ []) })
add_powerup-IsSound s w ok lt h = ground (
  arith,
  length-append w.powerups (s ∷ []),
  All-append IsSpawn w.powerups (s ∷ []) h.spawns (ok, tt),
)

pub replace_players-IsSound :
    (ps : List (Option Player)) (w : World)
    → length ps ≡ length w.players
    → All (Slot IsPlayer) ps
    → IsSound w
    → IsSound (record w { players = ps })
replace_players-IsSound ps w e ok h = ground arith

pub ruleset store_rules = (
  keeps_rules, store_obj-Keeps, load_obj-Keeps, mod_obj-Keeps, alloc_obj-Keeps, free_obj-Keeps,
  obj_at-Keeps, set_obj_at-Keeps, get_player-Keeps, the_player-Keeps, set_player-Keeps,
  mod_player-Keeps, sendto-Keeps, rand-Keeps, set_buf-Keeps, set_cliaddr-IsSound,
  set_pingdata-IsSound, set_dead-IsSound, set_flag_taken-IsSound, set_teamscore-IsSound,
  set_flagloc-IsSound,
)

pub ruleset state_rules = (
  keeps_rules, set_cliaddr-IsSound, set_pingdata-IsSound, set_dead-IsSound, set_flag_taken-IsSound,
  set_teamscore-IsSound, set_flagloc-IsSound,
)
