-- ===== src/Ctf/Clock.antt =====
-- `usecdiff` of server/ctfsocket.c, which times the frames.
use spectranet.Base.{◌^◌, ltb_ℤ, mod_ℤ, ℤ, pos, ◌+ℤ◌, ◌-ℤ◌, ◌*ℤ◌, ◌==ℤ◌, if◌then◌else◌}

pub record TimeVal : Type 0 where
  pub tv_sec : ℤ
  pub tv_usec : ℤ

abbrev pub million : ℤ
million = pos 1000000

-- A value of an `int` of 32 bits, from the whole number that is computed.
abbrev pub int32 : ℤ → ℤ
int32 a =
    if ltb_ℤ (pos (mod_ℤ a (2 ^ 32))) (pos (2 ^ 31))
    then pos (mod_ℤ a (2 ^ 32))
    else pos (mod_ℤ a (2 ^ 32)) -ℤ pos (2 ^ 32)

-- The difference between the two in microseconds, in an `int`, which wraps round from 2149 seconds
-- on.
unfoldable pub usecdiff : TimeVal → TimeVal → ℤ
unfolding ◌+ℤ◌ ◌-ℤ◌ ◌*ℤ◌
usecdiff first last =
    let secdiff = int32 (last.tv_sec -ℤ first.tv_sec) in
    int32 (
      if secdiff ==ℤ pos 0
      then last.tv_usec -ℤ first.tv_usec
      else if secdiff ==ℤ pos 1
      then million -ℤ first.tv_usec +ℤ last.tv_usec
      else million -ℤ last.tv_usec +ℤ first.tv_usec +ℤ int32 ((secdiff -ℤ pos 1) *ℤ million))
