-- ===== src/Keyboard/Tests.antt =====
-- Keys that come and go.
use spectranet.Base.{◌≡◌, refl, arith, some, List, [], ◌∷◌}
use spectranet.Keyboard.{KeyEvent, pressed, looked, inputinit, keys_read}
use spectranet.Keyboard.Queue.{keys_queued, keys_read-inputinit}

abbrev typing : List KeyEvent
typing = pressed 65 ∷ pressed 0 ∷ looked ∷ looked ∷ pressed 66 ∷ pressed 67 ∷ looked ∷ looked ∷ []

typing_order : keys_queued 8 typing [] ≡ 65 ∷ 66 ∷ 67 ∷ []
unfolding keys_queued
typing_order = refl

-- Four keys in a buffer of 4 bytes are lost together.
overrun : keys_queued 4 (pressed 1 ∷ pressed 2 ∷ pressed 3 ∷ pressed 4 ∷ looked ∷ []) [] ≡ []
unfolding keys_queued
overrun = refl

keys_read-inputinit_example : keys_read 8 typing (inputinit 8) ≡ some (keys_queued 8 typing [])
keys_read-inputinit_example = keys_read-inputinit 8 typing (omega arith)
