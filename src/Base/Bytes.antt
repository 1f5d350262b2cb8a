-- ===== src/Base/Bytes.antt =====
-- Bytes: their bits, the little-endian layout of a 16-bit field, text, and C's `%d`.
use Prim.Native.Nat.{ℕ, zero, suc, ◌+◌, ◌-◌, ◌/◌, ◌%◌, ◌^◌}
use Prim.Native.Char.{code}
use Prim.Native.String.{String}
use mathlib.Core.Bool.{Bool}
use mathlib.Core.List.{List, [], ◌∷◌, ◌++◌}
use spectranet.Base.Tests.{ltb, ◌==◌, if◌then◌else◌}
use spectranet.Base.Int.{ℤ, pos, negsuc}
use spectranet.Base.Lists.{take, replicate}

-- The code points of a text: its bytes, if it is ASCII.
abbrev pub codes : String → List ℕ
codes String.[] = []
codes (String.◌∷◌ c s) = code c ∷ codes s

-- Bit `k` of a byte.
abbrev pub bit : ℕ → ℕ → Bool
bit b k = (b / 2 ^ k) % 2 == 1

abbrev pub bit_value : Bool → ℕ → ℕ
bit_value b k = if b then 2 ^ k else 0

-- `uint16_t`, as a little-endian machine stores it.
abbrev pub le16 : ℕ → List ℕ
le16 n = (n % 256) ∷ (n / 256 % 256) ∷ []

-- The decimal digits of a number, `fuel` of them at most; a number has no more digits than its
-- value plus one.
unfoldable pub digits : ℕ → ℕ → List ℕ → List ℕ
digits zero n acc = acc
digits (suc fuel) n acc =
    let more = digits fuel (n / 10) ((b'0' + n % 10) ∷ acc) in
    if ltb n 10 then (b'0' + n) ∷ acc else more

-- `%d`.
unfoldable pub decimal : ℤ → List ℕ
unfolding digits
decimal (pos n) = digits (suc n) n []
decimal (negsuc n) = b'-' ∷ digits (suc (suc n)) (suc n) []

-- A `char` array of `n` bytes that holds a C string: `snprintf` and `strlcpy` cut the text to
-- `n - 1` bytes and end it by a NUL, and the bytes behind keep what the memory held.
unfoldable pub c_field : ℕ → ℕ → List ℕ → List ℕ
c_field n junk s = take n (take (n - 1) s ++ (0 ∷ replicate n junk))
