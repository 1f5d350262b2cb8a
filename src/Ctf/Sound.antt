-- ===== src/Ctf/Sound.antt =====
-- The well-formedness of the server's state, and the parts of the state that keep it.
pub mod Store
pub mod Messages
pub mod Making
pub mod Boards
pub mod Ends
pub mod Pickups
pub mod Fights
pub mod Views
pub mod Joining
pub mod Frames
pub mod Rounds
pub mod Reach
use spectranet.Base.{
  ℕ, zero, suc, ◌+◌, ◌≤◌, ◌<◌, ◌≡◌, refl, Option, none, some, List, [], ◌∷◌, ◌++◌, length, set,
  length-set, arith, ℤ, Bool,
}
use spectranet.Ctf.Limits.{msg_buf_sz}
use spectranet.Ctf.Types.{Player, MapXy, Ping, PowerSpawn, SockAddr}
use spectranet.Ctf.World.{World, MsgBuf}

-- Messages, each an id and a payload, as they lie in a buffer.
abbrev pub frames : List (ℕ × List ℕ) → List ℕ
frames [] = []
frames ((id, msg) ∷ ms) = id ∷ (msg ++ frames ms)

-- A buffer that holds some messages, as many as it says, and fits its memory.
abbrev pub IsBuf : MsgBuf → Type 0
IsBuf b =
    (ms : List (ℕ × List ℕ)) × (b.body ≡ frames ms)
    × (b.count ≡ length ms)
    × (1 + length b.body ≤ msg_buf_sz)

abbrev pub IsPlayer : Player → Type 0
IsPlayer p = (p.team ≤ 2) × (length p.name ≤ 15)

abbrev pub IsSpawn : PowerSpawn → Type 0
IsSpawn s = s.cooldown < 720

abbrev pub All : {A : Type 0} → (A → Type 0) → List A → Type 0
All P [] = Unit {0}
All P (x ∷ xs) = P x × All P xs

-- `P` of what a slot holds, if it holds something.
abbrev pub Slot : {A : Type 0} → (A → Type 0) → Option A → Type 0
Slot P none = Unit {0}
Slot P (some a) = P a

-- The arrays have their sizes, the register of deaths is not overrun, each buffer is well formed,
-- each player is in a team or in none, and the power-ups are as many as there may be, with
-- cooldowns in range.
pub record IsState (players : List (Option Player)) (cliaddr : List (Option SockAddr))
    (player_buf : List (Option MsgBuf)) (pingdata : List Ping) (objlist : List (Option ℕ))
    (dead_players : List (Option Player)) (dead_player_idx : ℕ) (powerups : List PowerSpawn)
    (flag_taken : List Bool) (teamscore : List ℤ) (flagloc : List MapXy) : Type 0 where
  pub players_size : length players ≡ 16
  pub cliaddr_size : length cliaddr ≡ 16
  pub player_buf_size : length player_buf ≡ 16
  pub pingdata_size : length pingdata ≡ 16
  pub objlist_size : length objlist ≡ 48
  pub dead_size : length dead_players ≡ 16
  pub dead_in : dead_player_idx ≤ 16
  pub powerups_size : length powerups ≤ 20
  pub flag_taken_size : length flag_taken ≡ 2
  pub teamscore_size : length teamscore ≡ 2
  pub flagloc_size : length flagloc ≡ 2
  pub bufs : All (Slot IsBuf) player_buf
  pub teams : All (Slot IsPlayer) players
  pub spawns : All IsSpawn powerups

abbrev pub IsSound : World → Type 0
IsSound w =
    IsState w.players w.cliaddr w.player_buf w.pingdata w.objlist w.dead_players w.dead_player_idx
      w.powerups w.flag_taken w.teamscore w.flagloc

pub All-set :
    {A : Type 0} (P : A → Type 0) (xs : List A) (i : ℕ) (v : A)
    → All P xs
    → P v
    → All P (set xs i v)
All-set P [] i v h k = tt
All-set P (x ∷ xs) zero v h k = (k, h.1)
All-set P (x ∷ xs) (suc i) v h k = (h.0, All-set P xs i v h.1 k)

pub All-append :
    {A : Type 0} (P : A → Type 0) (xs ys : List A) → All P xs → All P ys → All P (xs ++ ys)
All-append P [] ys h k = k
All-append P (x ∷ xs) ys h k = (h.0, All-append P xs ys h.1 k)
