-- ===== src/Spectator/Icons.antt =====
-- The pictures of the spectator, lists of lines: initIcons and makeGfxLine of spectator/gfx.c, and
-- the ids of the pictures in spectator/gfx.h.
use spectranet.Base.{ℕ, ℤ, pos, Option, List, [], ◌∷◌, get_elem?}

-- A line; the list that the C code links by `next` is a list.
pub record GfxLine : Type 0 where
  pub start_x : ℤ
  pub start_y : ℤ
  pub end_x : ℤ
  pub end_y : ℤ

abbrev pub make_gfx_line : ℤ → ℤ → ℤ → ℤ → GfxLine
make_gfx_line sx sy ex ey = record { start_x = sx; start_y = sy; end_x = ex; end_y = ey }

-- The lines of the pictures, none of which has a negative place.
abbrev line : ℕ → ℕ → ℕ → ℕ → GfxLine
line sx sy ex ey = make_gfx_line (pos sx) (pos sy) (pos ex) (pos ey)

abbrev spawnpt : List GfxLine
spawnpt = line 0 0 6 6 ∷ line 10 10 15 15 ∷ line 0 15 6 10 ∷ line 15 0 10 6 ∷ []

abbrev flagpt : List GfxLine
flagpt = line 0 0 0 15 ∷ line 0 0 12 4 ∷ line 0 8 12 4 ∷ []

abbrev fuelpt : List GfxLine
fuelpt = line 0 0 0 15 ∷ line 0 0 12 0 ∷ line 0 6 10 6 ∷ []

abbrev ammopt : List GfxLine
ammopt = line 6 0 0 15 ∷ line 6 0 12 15 ∷ line 3 9 9 9 ∷ []

abbrev tank : List GfxLine
tank =
    line 10 0 21 0
    ∷ line 21 0 25 5
    ∷ line 25 5 25 30
    ∷ line 25 7 29 7
    ∷ line 29 7 29 27
    ∷ line 29 27 25 27
    ∷ line 25 30 6 30
    ∷ line 21 31 10 31
    ∷ line 6 30 6 5
    ∷ line 6 5 10 0
    ∷ line 2 27 6 27
    ∷ line 2 27 2 7
    ∷ line 2 7 6 7
    ∷ []

abbrev foton1 : List GfxLine
foton1 =
    line 10 16 22 16
    ∷ line 16 10 16 22
    ∷ line 10 14 10 18
    ∷ line 22 14 22 18
    ∷ line 14 10 18 10
    ∷ line 14 22 18 22
    ∷ []

abbrev foton2 : List GfxLine
foton2 =
    line 8 8 24 24
    ∷ line 8 24 24 8
    ∷ line 22 6 26 10
    ∷ line 26 22 22 26
    ∷ line 10 26 16 22
    ∷ line 6 10 10 6
    ∷ []

abbrev foton3 : List GfxLine
foton3 =
    line 10 0 22 31
    ∷ line 0 22 31 6
    ∷ line 2 20 6 24
    ∷ line 20 30 24 26
    ∷ line 30 12 26 4
    ∷ line 8 4 12 0
    ∷ []

abbrev foton4 : List GfxLine
foton4 = line 8 14 24 18 ∷ line 18 8 14 24 ∷ []

abbrev xplode1 : List GfxLine
xplode1 =
    line 8 6 12 10
    ∷ line 12 10 14 7
    ∷ line 14 7 16 9
    ∷ line 16 9 22 2
    ∷ line 22 2 20 10
    ∷ line 20 10 26 12
    ∷ line 26 12 20 14
    ∷ line 20 14 28 22
    ∷ line 28 22 24 20
    ∷ line 24 20 24 31
    ∷ line 24 31 16 26
    ∷ line 16 26 16 30
    ∷ line 16 30 8 24
    ∷ line 8 24 1 27
    ∷ line 1 27 10 20
    ∷ line 10 20 4 16
    ∷ line 4 16 9 14
    ∷ line 9 14 8 6
    ∷ []

abbrev xplode2 : List GfxLine
xplode2 =
    line 5 7 11 12
    ∷ line 11 12 16 5
    ∷ line 16 5 18 12
    ∷ line 18 12 25 8
    ∷ line 25 8 21 15
    ∷ line 21 15 30 22
    ∷ line 30 22 19 22
    ∷ line 19 22 18 30
    ∷ line 18 30 9 21
    ∷ line 9 21 8 31
    ∷ line 8 31 6 20
    ∷ line 6 20 1 14
    ∷ line 1 14 7 16
    ∷ line 7 16 5 7
    ∷ []

abbrev flagicon : List GfxLine
flagicon =
    line 2 0 8 0
    ∷ line 8 0 8 2
    ∷ line 8 2 2 2
    ∷ line 2 2 2 0
    ∷ line 4 2 4 29
    ∷ line 6 2 6 29
    ∷ line 2 31 8 31
    ∷ line 8 31 8 29
    ∷ line 8 29 2 29
    ∷ line 2 29 2 31
    ∷ line 6 2 28 12
    ∷ line 28 12 6 20
    ∷ line 6 8 16 11
    ∷ line 16 11 6 15
    ∷ []

abbrev fuelicon : List GfxLine
fuelicon =
    line 20 0 24 0
    ∷ line 24 0 24 4
    ∷ line 24 4 29 4
    ∷ line 29 4 29 31
    ∷ line 29 31 6 31
    ∷ line 6 31 6 10
    ∷ line 6 10 16 4
    ∷ line 16 4 20 4
    ∷ line 20 4 20 0
    ∷ line 10 12 25 12
    ∷ line 25 12 25 25
    ∷ line 25 25 10 25
    ∷ line 10 25 10 12
    ∷ []

abbrev ammoicon : List GfxLine
ammoicon =
    line 1 7 30 7
    ∷ line 30 7 30 30
    ∷ line 30 30 3 30
    ∷ line 3 30 3 15
    ∷ line 1 15 5 15
    ∷ line 5 15 5 7
    ∷ line 1 15 1 7
    ∷ line 5 12 30 9
    ∷ line 1 15 1 24
    ∷ []

-- The places of the pictures in `icon`.
abbrev pub tank_icon : ℕ
tank_icon = 4

abbrev pub foton_icon : ℕ
foton_icon = 5

abbrev pub xplode_icon : ℕ
xplode_icon = 9

abbrev pub flag_icon : ℕ
flag_icon = 11

abbrev pub fuel_icon : ℕ
fuel_icon = 12

abbrev pub ammo_icon : ℕ
ammo_icon = 13

abbrev pub spawn_place : ℕ
spawn_place = 0

abbrev pub flag_place : ℕ
flag_place = 1

abbrev pub ammo_place : ℕ
ammo_place = 2

abbrev pub fuel_place : ℕ
fuel_place = 3

abbrev pub icons : List (List GfxLine)
icons =
    spawnpt ∷ flagpt ∷ ammopt ∷ fuelpt ∷ tank ∷ foton1 ∷ foton2 ∷ foton3 ∷ foton4 ∷ xplode1
    ∷ xplode2 ∷ flagicon ∷ fuelicon ∷ ammoicon ∷ []

-- `icon[id]`; `none` reads behind the array.
unfoldable pub icon : ℕ → Option (List GfxLine)
icon id = get_elem? icons id
