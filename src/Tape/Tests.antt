-- ===== src/Tape/Tests.antt =====
-- A short file on a tape.
use spectranet.Base.{ℕ, ◌≡◌, refl, arith, true, false, some, List, [], ◌∷◌}
use spectranet.Tape.{bin2tape}
use spectranet.Tape.Load.{load_output, load-bin2tape}

abbrev code : List ℕ
code = 62 ∷ 2 ∷ 211 ∷ 254 ∷ 201 ∷ []

load-bin2tape_example :
    load_output false (bin2tape (λ n. true) false 32768 code) ≡ some (32768, code)
load-bin2tape_example = load-bin2tape (λ n. true) false 32768 code refl (omega arith) (omega arith)
