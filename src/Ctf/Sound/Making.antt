-- ===== src/Ctf/Sound/Making.antt =====
-- Making objects and spawning players keep the state well formed.
use spectranet.Base.{ℕ, suc, ◌≡◌, refl, ap, ℤ, Option, none, some, List, [], ◌∷◌, length, arith}
use spectranet.Ctf.Types.{Player}
use spectranet.Ctf.Sound.Store.{set_objlist-IsSound_lem}
use spectranet.Ctf.Keeps.{Keeps}
use spectranet.Ctf.Sound.{IsSound}
use spectranet.Ctf.Objects
use spectranet.Ctf.Sound.Store.{alloc_obj-Keeps, the_player-Keeps, mod_player-Keeps}
use spectranet.Ctf.Sound.Store.{state_rules}

length-put_first_free :
    (p : ℕ) (l : List (Option ℕ)) → length (Objects.put_first_free p l) ≡ length l
unfolding Objects.put_first_free
length-put_first_free p [] = refl
length-put_first_free p (none ∷ l) = refl
length-put_first_free p (some q ∷ l) = ap suc (length-put_first_free p l)

pub add_object-Keeps : (p : ℕ) → Keeps IsSound (Objects.add_object p)
unfolding Objects.add_object
add_object-Keeps p = set_objlist-IsSound_lem (Objects.put_first_free p) (length-put_first_free p)

length-clear_first : (p : ℕ) (l : List (Option ℕ)) → length (Objects.clear_first p l) ≡ length l
unfolding Objects.clear_first
length-clear_first p [] = refl
length-clear_first p (none ∷ l) = ap suc (length-clear_first p l)
length-clear_first p (some q ∷ l) = ground (arith, length-clear_first p l)

pub delete_object-Keeps : (p : ℕ) → Keeps IsSound (Objects.delete_object p)
unfolding Objects.delete_object
delete_object-Keeps p = set_objlist-IsSound_lem (Objects.clear_first p) (length-clear_first p)

pub get_flagpoint-Keeps : (team : ℕ) → Keeps IsSound (Objects.get_flagpoint team)
unfolding Objects.get_flagpoint
get_flagpoint-Keeps team = search state_rules depth 40

pub place_flag-Keeps : (team : ℕ) (x : ℤ) (y : ℤ) → Keeps IsSound (Objects.place_flag team x y)
unfolding Objects.place_flag
place_flag-Keeps team x y = search (state_rules, alloc_obj-Keeps, add_object-Keeps) depth 40

pub create_flags-Keeps : Keeps IsSound Objects.create_flags
unfolding Objects.create_flags
create_flags-Keeps = search (state_rules, get_flagpoint-Keeps, place_flag-Keeps) depth 40

pub get_spawnpoint-Keeps : (p : Player) → Keeps IsSound (Objects.get_spawnpoint p)
unfolding Objects.get_spawnpoint
get_spawnpoint-Keeps p = search state_rules depth 40

pub spawn_player-Keeps : (clientid : ℕ) → Keeps IsSound (Objects.spawn_player clientid)
unfolding Objects.spawn_player
spawn_player-Keeps clientid =
    search
      (
        state_rules, alloc_obj-Keeps, the_player-Keeps, mod_player-Keeps, add_object-Keeps,
        get_spawnpoint-Keeps,
      )
      depth 40

pub is_player_object-Keeps : (p : ℕ) (owner : ℤ) → Keeps IsSound (Objects.is_player_object p owner)
unfolding Objects.is_player_object
is_player_object-Keeps p owner = search (state_rules, the_player-Keeps) depth 40
