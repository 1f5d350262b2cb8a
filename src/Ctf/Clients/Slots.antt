-- ===== src/Ctf/Clients/Slots.antt =====
-- The slots that clients hold.
use spectranet.Base.{
  subst, ℕ, zero, suc, ◌≢◌, ◌==◌, false, ◌+◌, ◌≡◌, refl, arith, Option, none, some, true,
  Bool-cases, List, [], ◌∷◌, set, get_elem?, inl, inr,
}
use spectranet.Ctf.Types.{SockAddr}
use spectranet.Ctf.Clients.{free_client, find_from, same_addr}

same_addr_refl : (a : SockAddr) → same_addr a a ≡ true
unfolding same_addr
same_addr_refl a = ground arith

find-put_from :
    (k j : ℕ) (a : SockAddr) (l : List (Option SockAddr))
    → free_client k l ≡ some j
    → find_from k a l ≡ none
    → (i : ℕ) × (j ≡ k + i)
      × (get_elem? l i ≡ some none)
      × (find_from k a (set l i (some a)) ≡ some j)
unfolding free_client find_from
find-put_from k j a [] free new = cc
find-put_from k j a (none ∷ l) free new =
    (0, ground (arith, free), refl, rw (same_addr_refl a) free)
find-put_from k j a (some b ∷ l) free new = elim (Bool-cases (same_addr a b)) [
  | inl same ↦ let absurd_new = rw same at new in cc
  | inr other ↦
      let (i, place, empty, found) = find-put_from (suc k) j a l free (rw other at new) in
      (suc i, omega arith, empty, rw other found)
]

address_lem : (c a : SockAddr) → c.addr ≡ a.addr → c.port ≡ a.port → c ≡ a
address_lem c a e f = cc

differs : (c a : SockAddr) → c ≢ a → same_addr c a ≡ false
unfolding same_addr
differs c a apart = elim (Bool-cases (c.addr == a.addr)) [
  | inr e ↦ rw e refl
  | inl e ↦ elim (Bool-cases (c.port == a.port)) [
    | inr f ↦ rw (e, f) refl
    | inl f ↦ elim (apart (address_lem c a (ground arith) (ground arith))) [ ]
  ]
]

-- A new address in an empty slot does not change where another is found.
others :
    (k i : ℕ) (c a : SockAddr) (l : List (Option SockAddr))
    → same_addr c a ≡ false
    → get_elem? l i ≡ some none
    → find_from k c (set l i (some a)) ≡ find_from k c l
unfolding find_from
others k i c a [] apart empty = refl
others k zero c a (none ∷ l) apart empty = rw apart refl
others k zero c a (some b ∷ l) apart empty = cc
others k (suc i) c a (none ∷ l) apart empty = others (suc k) i c a l apart empty
others k (suc i) c a (some b ∷ l) apart empty = rw (others (suc k) i c a l apart empty) refl

-- An address that no slot has, in the first free one.
pub find-put :
    (i : ℕ) (a : SockAddr) (l : List (Option SockAddr))
    → free_client 0 l ≡ some i
    → find_from 0 a l ≡ none
    → (get_elem? l i ≡ some none)
      × (find_from 0 a (set l i (some a)) ≡ some i)
      × ((c : SockAddr) → c ≢ a → find_from 0 c (set l i (some a)) ≡ find_from 0 c l)
find-put i a l free new =
    let (j, place, empty, found) = find-put_from 0 i a l free new in
    let same : j ≡ i = omega arith in
    let here = subst (λ k. get_elem? l k ≡ some none) same empty in
    (
      here,
      subst (λ k. find_from 0 a (set l k (some a)) ≡ some i) same found,
      λ c apart. others 0 i c a l (differs c a apart) here,
    )
