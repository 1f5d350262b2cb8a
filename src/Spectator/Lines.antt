-- ===== src/Spectator/Lines.antt =====
-- The status lines as the last five messages, the oldest at the top.
use spectranet.Base.{
  ℕ, zero, suc, false, ◌∙◌, leb, ltb, if◌then◌else◌, some, none, ◌<◌, ◌≤◌, ◌≡◌, refl, ap, arith, ℤ,
  pos, ◌+ℤ◌, ◌-ℤ◌, ◌==ℤ◌, List, [], ◌∷◌, ◌++◌, take, drop, replicate,
}
use spectranet.Spectator.Draw.{Shape}
use spectranet.Spectator.Notes.{
  ScreenMsg, Notes, no_msg, fresh, init_notes, add_screen_msg, aged, shown, blit_from,
  blit_screen_msgs,
}

-- What happens to the lines: a message, or a frame on the screen.
pub data NoteEvent : Type 0 where
  added : List ℕ → NoteEvent
  frame : NoteEvent

-- What the program shows in the frames.
unfoldable pub frames_shown : ℤ → List NoteEvent → Notes → List (List Shape)
frames_shown hgt [] s = []
frames_shown hgt (added t ∷ es) s = frames_shown hgt es (add_screen_msg t s)
frames_shown hgt (frame ∷ es) s =
    (blit_screen_msgs hgt s).1 ∷ frames_shown hgt es (blit_screen_msgs hgt s).0

-- The lines from the top down, 24 apart.
unfoldable pub lines_at : ℤ → List ScreenMsg → List Shape
unfolding shown ◌+ℤ◌
lines_at y [] = []
lines_at y (m ∷ ms) = shown y m.rendered ++ lines_at (y +ℤ pos 24) ms

unfoldable pub each_aged : List ScreenMsg → List ScreenMsg
unfolding aged
each_aged [] = []
each_aged (m ∷ ms) = aged m ∷ each_aged ms

-- The same for a list of messages, the oldest first: a message pushes the oldest out.
unfoldable pub frames_of : ℤ → List NoteEvent → List ScreenMsg → List (List Shape)
unfolding lines_at each_aged ◌-ℤ◌
frames_of hgt [] l = []
frames_of hgt (added t ∷ es) l = frames_of hgt es (drop 1 l ++ (fresh t ∷ []))
frames_of hgt (frame ∷ es) l = lines_at (hgt -ℤ pos 120) l ∷ frames_of hgt es (each_aged l)

-- The messages of the ring, the oldest first.
abbrev pub by_age : Notes → List ScreenMsg
by_age s = drop s.currmsg s.smsgs ++ take s.currmsg s.smsgs

-- A ring of five places.
abbrev ring : ScreenMsg → ScreenMsg → ScreenMsg → ScreenMsg → ScreenMsg → ℕ → Notes
ring a b c d e i = record { smsgs = a ∷ b ∷ c ∷ d ∷ e ∷ []; currmsg = i }

ring_frames :
    (hgt : ℤ) (es : List NoteEvent) (a b c d e : ScreenMsg) (i : ℕ)
    → i < 5
    → frames_shown hgt es (ring a b c d e i) ≡ frames_of hgt es (by_age (ring a b c d e i))
unfolding frames_shown frames_of add_screen_msg blit_screen_msgs blit_from lines_at each_aged
ring_frames hgt [] a b c d e i h = refl
ring_frames hgt (added t ∷ es) a b c d e zero h =
    ring_frames hgt es (fresh t) b c d e 1 (omega arith)
ring_frames hgt (added t ∷ es) a b c d e (suc zero) h =
    ring_frames hgt es a (fresh t) c d e 2 (omega arith)
ring_frames hgt (added t ∷ es) a b c d e (suc (suc zero)) h =
    ring_frames hgt es a b (fresh t) d e 3 (omega arith)
ring_frames hgt (added t ∷ es) a b c d e (suc (suc (suc zero))) h =
    ring_frames hgt es a b c (fresh t) e 4 (omega arith)
ring_frames hgt (added t ∷ es) a b c d e (suc (suc (suc (suc zero)))) h =
    ring_frames hgt es a b c d (fresh t) 0 (omega arith)
ring_frames hgt (added t ∷ es) a b c d e (suc (suc (suc (suc (suc i))))) h =
    let bad : 1 ≤ 0 = omega arith in elim bad [ ]
ring_frames hgt (frame ∷ es) a b c d e zero h =
    ap (λ l. lines_at (hgt -ℤ pos 120) (by_age (ring a b c d e 0)) ∷ l)
      (ring_frames hgt es (aged a) (aged b) (aged c) (aged d) (aged e) 0 (omega arith))
ring_frames hgt (frame ∷ es) a b c d e (suc zero) h =
    ap (λ l. lines_at (hgt -ℤ pos 120) (by_age (ring a b c d e 1)) ∷ l)
      (ring_frames hgt es (aged a) (aged b) (aged c) (aged d) (aged e) 1 (omega arith))
ring_frames hgt (frame ∷ es) a b c d e (suc (suc zero)) h =
    ap (λ l. lines_at (hgt -ℤ pos 120) (by_age (ring a b c d e 2)) ∷ l)
      (ring_frames hgt es (aged a) (aged b) (aged c) (aged d) (aged e) 2 (omega arith))
ring_frames hgt (frame ∷ es) a b c d e (suc (suc (suc zero))) h =
    ap (λ l. lines_at (hgt -ℤ pos 120) (by_age (ring a b c d e 3)) ∷ l)
      (ring_frames hgt es (aged a) (aged b) (aged c) (aged d) (aged e) 3 (omega arith))
ring_frames hgt (frame ∷ es) a b c d e (suc (suc (suc (suc zero)))) h =
    ap (λ l. lines_at (hgt -ℤ pos 120) (by_age (ring a b c d e 4)) ∷ l)
      (ring_frames hgt es (aged a) (aged b) (aged c) (aged d) (aged e) 4 (omega arith))
ring_frames hgt (frame ∷ es) a b c d e (suc (suc (suc (suc (suc i))))) h =
    let bad : 1 ≤ 0 = omega arith in elim bad [ ]

-- Whatever messages and frames follow the start, in every order: each frame shows what is left of
-- the last five messages, the oldest at the top, whatever places of the ring they lie in.
pub frames_shown-frames_of :
    (hgt : ℤ) (es : List NoteEvent)
    → frames_shown hgt es init_notes ≡ frames_of hgt es (replicate 5 no_msg)
unfolding init_notes
frames_shown-frames_of hgt es =
    ring_frames hgt es no_msg no_msg no_msg no_msg no_msg 0 (omega arith)

-- A message after a number of frames.
abbrev pub after_frames : ℕ → ScreenMsg → ScreenMsg
after_frames zero m = m
after_frames (suc n) m = after_frames n (aged m)

abbrev with_ttl : List ℕ → ℕ → ScreenMsg
with_ttl t n = record (fresh t) { ttl = pos n }

gone :
    (n : ℕ) (t : List ℕ) (k : ℤ)
    → (after_frames n (record { msg = t; rendered = none; ttl = k })).rendered ≡ none
unfolding aged
gone zero t k = refl
gone (suc n) t k = gone n t k

pos_pred : (k : ℕ) → pos (suc (suc k)) -ℤ pos 1 ≡ pos (suc k)
unfolding ◌-ℤ◌
pos_pred k = ground arith

pos_left : (k : ℕ) → (pos (suc k) ==ℤ pos 0) ≡ false
pos_left k = ground arith

aged-with_ttl : (k : ℕ) (t : List ℕ) → aged (with_ttl t (suc (suc k))) ≡ with_ttl t (suc k)
unfolding aged
aged-with_ttl k t =
    ap (λ n. record (with_ttl t 0) { ttl = n; rendered = if n ==ℤ pos 0 then none else some t })
      (pos_pred k)
    ∙ ap (λ b. record (with_ttl t (suc k)) { rendered = if b then none else some t }) (pos_left k)

after_frames-with_ttl :
    (n k : ℕ) (t : List ℕ)
    → (after_frames n (with_ttl t (suc k))).rendered ≡ (if leb n k then some t else none)
unfolding aged ◌-ℤ◌
after_frames-with_ttl zero k t = ground arith
after_frames-with_ttl (suc n) zero t = gone n (take 80 t) (pos 0) ∙ ground arith
after_frames-with_ttl (suc n) (suc k) t =
    ap (λ m. (after_frames n m).rendered) (aged-with_ttl k t)
    ∙ after_frames-with_ttl n k t
    ∙ ground arith

-- A message has a picture in the 400 frames behind it, and in none after them.
pub lifetime :
    (n : ℕ) (t : List ℕ)
    → (after_frames n (fresh t)).rendered ≡ (if ltb n 400 then some t else none)
lifetime n t = after_frames-with_ttl n 399 t ∙ ground arith
