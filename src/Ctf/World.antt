-- ===== src/Ctf/World.antt =====
-- The server's global variables, and the monad of code that reads and writes them. A fault stands
-- for C's undefined behaviour: a NULL or dangling pointer, an index outside an array.
use spectranet.Base.{
  ℕ, suc, zero, ℤ, pos, negsuc, Bool, true, false, Option, none, some, List, ◌∷◌, ◌==◌,
  if◌then◌else◌, get_elem?, set,
}
use spectranet.Ctf.Types.{Object, Player, MapXy, Ping, Maptile, PowerSpawn, SockAddr}

-- What the server takes from its platform. The counter of the calls made so far selects the
-- answer of `sendto` and of `rand`; `malloc_ok` answers the one `malloc` whose result is tested.
-- `sqrt_int n` is `(int)sqrt(n)`, and `junk`
-- is what an uninitialised byte holds.
pub record Env : Type 0 where
  pub send_ok : ℕ → Bool
  pub rand : ℕ → ℕ
  pub malloc_ok : ℕ → Bool
  pub sqrt_int : ℕ → ℕ
  pub junk : ℕ

-- The options of the command line.
pub record Config : Type 0 where
  pub winning_score : ℤ
  pub max_lives : ℤ
  pub time_limit : ℤ
  pub max_wall_collision_dmg : ℤ
  pub min_players : ℤ

-- The map: rows of tiles, spawn points with directions, and the two flag points.
pub record GameMap : Type 0 where
  pub maprow : List (List Maptile)
  pub lastrow : ℤ
  pub spawnpoints : List MapXy
  pub spawndirs : List ℕ
  pub flagpoints : List MapXy

-- A client's output buffer: the message count in its first byte, and the bytes from the second
-- up to the write pointer.
pub record MsgBuf : Type 0 where
  pub count : ℕ
  pub body : List ℕ

pub record Datagram : Type 0 where
  pub dest : SockAddr
  pub bytes : List ℕ

pub record World : Type 0 where
  pub env : Env
  pub open env use *
  pub config : Config
  pub open config use *
  pub game_map : GameMap
  pub open game_map use *
  pub objs : ℕ → Option Object
  pub next_addr : ℕ
  pub objlist : List (Option ℕ)
  pub players : List (Option Player)
  pub dead_players : List (Option Player)
  pub dead_player_idx : ℕ
  pub teamscore : List ℤ
  pub flagloc : List MapXy
  pub flag_taken : List Bool
  pub frames : ℕ
  pub game_over : Bool
  pub time_remaining : ℤ
  pub player_count : ℤ
  pub running : Bool
  pub powerups : List PowerSpawn
  pub rands : ℕ
  pub cliaddr : List (Option SockAddr)
  pub player_buf : List (Option MsgBuf)
  pub pingdata : List Ping
  pub sent : List Datagram
  pub sends : ℕ

abbrev pub M : Type 0 → Type 0
M A = World → Option (A × World)

abbrev pub Act : Type 0
Act = M (Unit {0})

unfoldable pub pure : {A : Type 0} → A → M A
pure a w = some (a, w)

unfoldable pub skip : Act
skip w = some (tt, w)

unfoldable pub fault : {A : Type 0} → M A
fault w = none

-- What follows an action, from the action's outcome.
abbrev pub then_do : {A B : Type 0} → Option (A × World) → (A → M B) → Option (B × World)
then_do none f = none
then_do (some (a, w)) f = f a w

infixl 5 ◌>>=◌ ◌>>◌
unfoldable pub ◌>>=◌ : {A B : Type 0} → M A → (A → M B) → M B
◌>>=◌ m f w = then_do (m w) f

unfoldable pub ◌>>◌ : {B : Type 0} → Act → M B → M B
m >> k = m >>= λ _. k

unfoldable pub gets : {A : Type 0} → (World → A) → M A
gets f w = some (f w, w)

unfoldable pub modify : (World → World) → Act
modify f w = some (tt, f w)

unfoldable pub when : Bool → Act → Act
when b m = if b then m else skip

-- A test for NULL.
unfoldable pub maybe : {A B : Type 0} → Option A → M B → (A → M B) → M B
maybe none m f = m
maybe (some a) m f = f a

-- A pointer or an array element that must be there.
unfoldable pub deref : {A : Type 0} → Option A → M A
deref none = fault
deref (some a) = pure a

-- `for(i = from; i < from + rounds; i++) body(i);`
unfoldable pub for_range : ℕ → ℕ → (ℕ → Act) → Act
for_range i zero body w = some (tt, w)
for_range i (suc rounds) body w = then_do (body i w) (λ _. for_range (suc i) rounds body)

-- An `int` used as an index: a negative one is outside every array.
unfoldable pub index : ℤ → M ℕ
index (pos n) = pure n
index (negsuc n) = fault

-- Objects, by address.
abbrev pub update : {A : Type 0} → (ℕ → Option A) → ℕ → Option A → ℕ → Option A
update h p v q = if p == q then v else h q

unfoldable pub load_obj : ℕ → M Object
load_obj p = gets (λ w. w.objs p) >>= deref

unfoldable pub store_obj : ℕ → Object → Act
store_obj p o = modify (λ w. record w { objs = update w.objs p (some o) })

unfoldable pub mod_obj : ℕ → (Object → Object) → Act
mod_obj p f = do o ← load_obj p; store_obj p (f o)

unfoldable pub alloc_obj : Object → M ℕ
alloc_obj o w = some (
  w.next_addr,
  record w { objs = update w.objs w.next_addr (some o); next_addr = suc w.next_addr },
)

unfoldable pub free_obj : ℕ → Act
free_obj p = modify (λ w. record w { objs = update w.objs p none })

-- `objlist[i]`.
unfoldable pub obj_at : ℕ → M (Option ℕ)
obj_at i = gets (λ w. get_elem? w.objlist i) >>= deref

unfoldable pub set_obj_at : ℕ → Option ℕ → Act
set_obj_at i p = modify (λ w. record w { objlist = set w.objlist i p })

-- `players[i]`, and the player there.
unfoldable pub get_player : ℕ → M (Option Player)
get_player i = gets (λ w. get_elem? w.players i) >>= deref

unfoldable pub the_player : ℕ → M Player
the_player i = get_player i >>= deref

unfoldable pub set_player : ℕ → Option Player → Act
set_player i p = modify (λ w. record w { players = set w.players i p })

unfoldable pub mod_player : ℕ → (Player → Player) → Act
mod_player i f = do p ← the_player i; set_player i (some (f p))

-- `sendto`.
unfoldable pub sendto : SockAddr → List ℕ → M Bool
sendto a bs w =
    if w.send_ok w.sends
    then some
        (true, record w { sends = suc w.sends; sent = record { dest = a; bytes = bs } ∷ w.sent })
    else some (false, record w { sends = suc w.sends })

unfoldable pub rand : M ℕ
rand w = some (w.env.rand w.rands, record w { rands = suc w.rands })
