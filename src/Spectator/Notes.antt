-- ===== src/Spectator/Notes.antt =====
-- The status lines under the map: addScreenMsg and blitScreenMsgs of spectator/gfx.c.
use spectranet.Base.{
  ℕ, zero, suc, ◌+◌, ◌==◌, if◌then◌else◌, ℤ, pos, ◌+ℤ◌, ◌-ℤ◌, ◌==ℤ◌, Option, none, some, List, [],
  ◌∷◌, ◌++◌, get_elem?, set, replicate, take,
}
use spectranet.Spectator.Draw.{Shape, text}

-- `ScreenMsg`; `rendered` is the picture of a text, by the text.
pub record ScreenMsg : Type 0 where
  pub msg : List ℕ
  pub rendered : Option (List ℕ)
  pub ttl : ℤ

abbrev pub no_msg : ScreenMsg
no_msg = record { msg = []; rendered = none; ttl = pos 0 }

-- `smsgs` and `currmsg`, the place that the next message takes.
pub record Notes : Type 0 where
  pub smsgs : List ScreenMsg
  pub currmsg : ℕ

unfoldable pub init_notes : Notes
init_notes = record { smsgs = replicate 5 no_msg; currmsg = 0 }

-- One place on, in the ring of `MAXSCRNMSGS`.
abbrev pub step : ℕ → ℕ
step i = if i + 1 == 5 then 0 else i + 1

-- A message that is put in, with `TTL` frames to live.
abbrev pub fresh : List ℕ → ScreenMsg
fresh t = record { msg = take 80 t; rendered = some t; ttl = pos 400 }

unfoldable pub add_screen_msg : List ℕ → Notes → Notes
add_screen_msg t s = record { smsgs = set s.smsgs s.currmsg (fresh t); currmsg = step s.currmsg }

-- A message after a frame: at the end of its life its picture is given back.
unfoldable pub aged : ScreenMsg → ScreenMsg
unfolding ◌-ℤ◌
aged m = elim m.rendered [
  | none ↦ m
  | some t ↦ record m {
    ttl = m.ttl -ℤ pos 1;
    rendered = if (m.ttl -ℤ pos 1) ==ℤ pos 0 then none else some t;
  }
]

-- The text of a message at a height.
unfoldable pub shown : ℤ → Option (List ℕ) → List Shape
shown y none = []
shown y (some t) = text (pos 10) y t ∷ []

abbrev age_at : ℕ → Option ScreenMsg → List ScreenMsg → List ScreenMsg
age_at i none l = l
age_at i (some m) l = set l i (aged m)

abbrev show_at : ℤ → Option ScreenMsg → List Shape
show_at y none = []
show_at y (some m) = shown y m.rendered

-- The loop of `blitScreenMsgs`, from the oldest message at `mindex` on.
unfoldable pub blit_from : ℕ → ℕ → ℤ → List ScreenMsg → List ScreenMsg × List Shape
unfolding aged shown ◌+ℤ◌
blit_from zero mindex y l = (l, [])
blit_from (suc rounds) mindex y l =
    let later =
      blit_from rounds (step mindex) (y +ℤ pos 24) (age_at mindex (get_elem? l mindex) l) in
    (later.0, show_at y (get_elem? l mindex) ++ later.1)

-- One frame, on a surface of the height `hgt`.
unfoldable pub blit_screen_msgs : ℤ → Notes → Notes × List Shape
unfolding blit_from ◌-ℤ◌
blit_screen_msgs hgt s =
    let done = blit_from 5 s.currmsg (hgt -ℤ pos 120) s.smsgs in
    (record s { smsgs = done.0 }, done.1)
