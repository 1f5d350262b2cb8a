-- ===== src/Ctf/Objects/Slots.antt =====
-- The object list as an array of slots.
use spectranet.Base.{
  ℕ, suc, ◌+◌, ◌<◌, ◌≤◌, ◌≡◌, refl, ap, arith, Option, none, some, true, Bool-cases, List, [], ◌∷◌,
  inl, inr, ◌==◌, if◌then◌else◌, ltb,
}
use spectranet.Ctf.Objects.{put_first_free, clear_first}

-- How often an address is listed.
abbrev pub listed : ℕ → List (Option ℕ) → ℕ
listed p [] = 0
listed p (none ∷ l) = listed p l
listed p (some q ∷ l) = if q == p then suc (listed p l) else listed p l

-- How many slots are free.
abbrev pub room : List (Option ℕ) → ℕ
room [] = 0
room (none ∷ l) = suc (room l)
room (some q ∷ l) = room l

contra : {n : ℕ} → suc n ≡ 0 → 1 ≤ 0
contra h = omega arith

same_number : (p : ℕ) → (p == p) ≡ true
same_number p = ground arith

-- An object that was not listed is added and deleted again without a trace, as long as a slot is
-- free.
pub clear_first-put_first_free :
    (p : ℕ) (l : List (Option ℕ))
    → listed p l ≡ 0
    → 0 < room l
    → clear_first p (put_first_free p l) ≡ l
unfolding put_first_free clear_first
clear_first-put_first_free p [] new free = refl
clear_first-put_first_free p (none ∷ l) new free = rw (same_number p) refl
clear_first-put_first_free p (some q ∷ l) new free = elim (Bool-cases (q == p)) [
  | inl same ↦ let absurd_new = rw same at new in elim (contra absurd_new) [ ]
  | inr other ↦
      rw other (ap (λ t. some q ∷ t) (clear_first-put_first_free p l (rw other at new) free))
]

-- Deleting an address takes one of its entries away, and touches no other address.
pub listed-clear_first :
    (p q : ℕ) (l : List (Option ℕ))
    → listed p (clear_first q l) + (if q == p then (if ltb 0 (listed q l) then 1 else 0) else 0)
      ≡ listed p l
unfolding clear_first
listed-clear_first p q [] = ground arith
listed-clear_first p q (none ∷ l) = listed-clear_first p q l
listed-clear_first p q (some r ∷ l) = ground (arith, listed-clear_first p q l)
