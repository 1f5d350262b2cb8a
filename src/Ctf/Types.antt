-- ===== src/Ctf/Types.antt =====
-- The structs of server/ctfserv.h and common/ctfmessage.h.
use spectranet.Base.{ℕ, ◌+◌, ℤ, pos, Bool, false, Option, none, List, bit_value}

pub record Vector : Type 0 where
  pub dir : ℤ
  pub velocity : ℤ

-- The object ids, which index the property table.
pub data ObjType : Type 0 where
  player foton xplode flag fuel ammo : ObjType

-- The flags byte of an object, a field to each bit from the lowest up.
pub record ObjFlags : Type 0 where
  pub has_moved : Bool
  pub new_obj : Bool
  pub destroyed : Bool
  pub vanished : Bool
  pub no_collide : Bool
  pub exploding : Bool
  pub has_flag : Bool
  pub update_sb : Bool

abbrev pub no_obj_flags : ObjFlags
no_obj_flags = record {
  has_moved = false;
  new_obj = false;
  destroyed = false;
  vanished = false;
  no_collide = false;
  exploding = false;
  has_flag = false;
  update_sb = false;
}

-- The byte that goes over the wire.
unfoldable pub obj_flags_byte : ObjFlags → ℕ
obj_flags_byte f =
    bit_value f.has_moved 0
    + bit_value f.new_obj 1
    + bit_value f.destroyed 2
    + bit_value f.vanished 3
    + bit_value f.no_collide 4
    + bit_value f.exploding 5
    + bit_value f.has_flag 6
    + bit_value f.update_sb 7

-- The functions that `collisionFunc` and `destructFunc` can point to.
pub data CollisionFunc : Type 0 where
  powerup_touched : CollisionFunc

pub data DestructFunc : Type 0 where
  destroy_player_obj reset_powerup_spawn : DestructFunc

-- `extras` is only ever a pointer to a power-up spawn point: its index.
pub record Object : Type 0 where
  pub owner : ℤ
  pub team : ℤ
  pub type : ObjType
  pub colour : ℕ
  pub size : ℤ
  pub prevx : ℤ
  pub prevy : ℤ
  pub x : ℤ
  pub y : ℤ
  pub commanded : Vector
  pub actual : Vector
  pub push : Vector
  pub dir_chg_count : ℤ
  pub damage : ℤ
  pub armour : ℤ
  pub hp : ℤ
  pub ammo : ℤ
  pub cooldown : ℤ
  pub ttl : ℤ
  pub flying : ℤ
  pub destruct_value : ℤ
  pub flags : ObjFlags
  pub ctrls : ℕ
  pub map_col_fudge : ℤ
  pub extras : Option ℕ
  pub collision_func : Option CollisionFunc
  pub destruct_func : Option DestructFunc

abbrev pub zero_vector : Vector
zero_vector = record { dir = pos 0; velocity = pos 0 }

-- `memset(po, 0, sizeof(Object))`
abbrev pub zero_object : Object
zero_object = record {
  owner = pos 0;
  team = pos 0;
  type = player;
  colour = 0;
  size = pos 0;
  prevx = pos 0;
  prevy = pos 0;
  x = pos 0;
  y = pos 0;
  commanded = zero_vector;
  actual = zero_vector;
  push = zero_vector;
  dir_chg_count = pos 0;
  damage = pos 0;
  armour = pos 0;
  hp = pos 0;
  ammo = pos 0;
  cooldown = pos 0;
  ttl = pos 0;
  flying = pos 0;
  destruct_value = pos 0;
  flags = no_obj_flags;
  ctrls = 0;
  map_col_fudge = pos 0;
  extras = none;
  collision_func = none;
  destruct_func = none;
}

pub record ObjectProperties : Type 0 where
  pub init_velocity : ℤ
  pub max_velocity : ℤ
  pub max_accel : ℤ
  pub max_brake : ℤ
  pub turn_speed : ℤ
  pub gun_cooldown : ℤ
  pub mass : ℤ
  pub hitpoints : ℤ
  pub armour : ℤ
  pub damage : ℤ
  pub ttl : ℤ
  pub pushdecay : ℤ
  pub velqty : ℤ
  pub destruct_value : ℤ

pub record Viewport : Type 0 where
  pub tx : ℕ
  pub ty : ℕ
  pub bx : ℕ
  pub by : ℕ

pub record MapXy : Type 0 where
  pub mapx : ℕ
  pub mapy : ℕ

-- The flags byte of a player, a field to each bit from the lowest up.
pub record PlayerFlags : Type 0 where
  pub running : Bool
  pub new_viewport : Bool
  pub dead : Bool
  pub matchmaking : Bool
  pub ready : Bool
  pub score_scrn : Bool
  pub spectator : Bool
  pub update_sb : Bool

abbrev pub no_player_flags : PlayerFlags
no_player_flags = record {
  running = false;
  new_viewport = false;
  dead = false;
  matchmaking = false;
  ready = false;
  score_scrn = false;
  spectator = false;
  update_sb = false;
}

-- `playerobj` is the address of the tank; `name` is the text before the NUL.
pub record Player : Type 0 where
  pub playerobj : Option ℕ
  pub name : List ℕ
  pub team : ℕ
  pub score : ℤ
  pub lives : ℤ
  pub flags : PlayerFlags
  pub view : Viewport
  pub vpcframes : ℤ
  pub playernum : ℕ
  pub clientid : ℕ
  pub goals : ℕ

pub record Ping : Type 0 where
  pub frames : ℕ
  pub rspmiss : ℕ

pub record Maptile : Type 0 where
  pub tile : ℕ
  pub x : ℕ

pub record PowerSpawn : Type 0 where
  pub x : ℤ
  pub y : ℤ
  pub cooldown : ℕ
  pub type : ObjType

pub record PlayerSpawn : Type 0 where
  pub loc : MapXy
  pub dir : ℕ

-- The IPv4 address and the port of a client.
pub record SockAddr : Type 0 where
  pub addr : ℕ
  pub port : ℕ
