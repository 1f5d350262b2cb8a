-- ===== src/Tape/Checksum.antt =====
-- The checksum of a block.
use Prim.Native.Nat.{bit_xor, bit_xor-bitwise, digits, differ}
use spectranet.Base.{ℕ, zero, suc, ◌/◌, ◌%◌, ◌≤◌, ◌≡◌, refl, ◌∙◌, arith, List, [], ◌∷◌, ◌++◌}
use spectranet.Tape.{checksum_from, get_checksum}

differ_self : (x : ℕ) → differ x x ≡ 0
differ_self zero = refl
differ_self (suc x) = differ_self x

digits_self : (n a : ℕ) → a ≤ n → digits (λ b. b) differ n a a ≡ 0
digits_self zero zero h = refl
digits_self zero (suc a) h = let bad : 1 ≤ 0 = omega arith in elim bad [ ]
digits_self (suc n) zero h = refl
digits_self (suc n) (suc a) h =
    omega (arith, digits_self n (suc a / 2) (omega arith), differ_self (suc a % 2))

bit_xor_self : (a : ℕ) → bit_xor a a ≡ 0
bit_xor_self a = bit_xor-bitwise a a ∙ digits_self a a (omega arith)

checksum_from-append :
    (r : ℕ) (s t : List ℕ) → checksum_from r (s ++ t) ≡ checksum_from (checksum_from r s) t
checksum_from-append r [] t = refl
checksum_from-append r (c ∷ s) t = checksum_from-append (bit_xor r c) s t

-- With its checksum behind it, a text has the checksum 0.
pub get_checksum-closed : (s : List ℕ) → get_checksum (s ++ (get_checksum s ∷ [])) ≡ 0
unfolding get_checksum
get_checksum-closed s =
    checksum_from-append 0 s (get_checksum s ∷ []) ∙ bit_xor_self (checksum_from 0 s)
