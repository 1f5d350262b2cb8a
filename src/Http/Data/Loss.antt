-- ===== src/Http/Data/Loss.antt =====
-- What `read_data` hands over.
use spectranet.Base.{
  ℕ, zero, suc, ◌+◌, ◌-◌, ◌≤◌, ◌<◌, ◌≡◌, refl, ap, sym, ◌∙◌, subst, arith, ℤ, pos, negsuc, true,
  false, Bool-cases, inl, inr, List, [], ◌∷◌, ◌++◌, length, take, drop, length-append, append_assoc,
  append-nil, ltb, if◌then◌else◌, ◌==◌, ltb→lt,
}
use spectranet.Http.Data.{Arrival, Reader, htrecv, take_in, read_net, read_data}
use spectranet.Http.Data.Front.{
  stream, IsFront, htrecv-IsFront, take-append_le, take-append_short, take_all, length-take_le,
  take-drop_more,
}

-- The body of the answer that is still to be read.
abbrev pub body : Reader → List ℕ
body r = take r.dataleft (r.buffer ++ stream r.net)

-- What a call that returns a number above 0 has done.
pub record IsProgress (n bufsz : ℕ) (whole : List ℕ) (r : ℤ × List ℕ × Reader) : Type 0 where
  pub told : length r.1 ≡ n
  pub fits : length r.1 ≤ bufsz
  pub rest : r.1 ++ body r.2 ≡ whole

to_nat : ℤ → ℕ
to_nat (pos n) = n
to_nat (negsuc n) = 0

take_in-IsProgress :
    (n size d : ℕ) (got : List ℕ) (s : List Arrival) (q : ℤ × List ℕ × List Arrival)
    → IsFront size (stream s) q
    → size ≤ d
    → (take_in got (record { dataleft = d; buffer = []; net = s }) q).0 ≡ pos n
    → 0 < n
    → IsProgress n
        (length got + size)
        (got ++ take d (stream s))
        (take_in got (record { dataleft = d; buffer = []; net = s }) q)
unfolding take_in to_nat
take_in-IsProgress n size d got s (negsuc m, bs, l) f h told some_n = cc
take_in-IsProgress n size d got s (pos zero, bs, l) f h told some_n =
    let zero_n = ap to_nat told in let bad : zero ≡ suc zero = omega arith in cc
take_in-IsProgress n size d got s (pos (suc m), bs, l) f h told some_n =
    let is_n = ap to_nat told in
    let count = f.count in
    let fits = f.fits in
    record {
      told = omega (arith, length-append got bs);
      fits = omega (arith, length-append got bs);
      rest =
          append_assoc got bs (take (d - suc m) (stream l))
          ∙ ap (λ t. got ++ t)
              (ap (λ k. bs ++ take (d - k) (stream l)) (sym count)
                ∙ sym (take-append_le d bs (stream l) (omega arith))
                ∙ ap (take d) f.whole);
    }

looser :
    {n a b : ℕ}
    → {w : List ℕ} → {r : ℤ × List ℕ × Reader} → a ≤ b
    → IsProgress n a w r
    → IsProgress n b w r
looser le p = let fits = p.fits in record { told = p.told; fits = omega arith; rest = p.rest }

-- What `read_net` asks for.
abbrev pub asked : ℕ → ℕ → ℕ
asked d bufsz = if ltb d bufsz then d else bufsz

asked_le : (d bufsz : ℕ) → asked d bufsz ≤ d
asked_le d bufsz = ground arith

asked_fits : (d bufsz : ℕ) → asked d bufsz ≤ bufsz
asked_fits d bufsz = ground arith

pub read_net_some :
    (bufsz : ℕ) (got : List ℕ) (r : Reader)
    → ltb r.dataleft 1 ≡ false
    → read_net bufsz got r ≡ take_in got r (htrecv (asked r.dataleft bufsz) r.net)
unfolding read_net
read_net_some bufsz got r e = rw (read_net, e) refl

read_net_none :
    (bufsz : ℕ) (got : List ℕ) (r : Reader)
    → ltb r.dataleft 1 ≡ true
    → read_net bufsz got r ≡ (pos (length got), got, r)
unfolding read_net
read_net_none bufsz got r e = rw (read_net, e) refl

read_net-IsProgress :
    (n bufsz d : ℕ) (got : List ℕ) (s : List Arrival)
    → (read_net bufsz got (record { dataleft = d; buffer = []; net = s })).0 ≡ pos n
    → 0 < n
    → IsProgress n
        (length got + bufsz)
        (got ++ take d (stream s))
        (read_net bufsz got (record { dataleft = d; buffer = []; net = s }))
unfolding to_nat
read_net-IsProgress n bufsz d got s told some_n =
    let r : Reader = record { dataleft = d; buffer = []; net = s } in
    elim (Bool-cases (ltb d 1)) [
      | inl e ↦
          let eq = read_net_none bufsz got r e in
          subst (IsProgress n (length got + bufsz) (got ++ take d (stream s))) (sym eq) (record {
            told = ap to_nat (ap (λ x. x.0) (sym eq) ∙ told);
            fits = omega arith;
            rest = refl;
          })
      | inr e ↦
          let eq = read_net_some bufsz got r e in
          subst (IsProgress n (length got + bufsz) (got ++ take d (stream s))) (sym eq) (
            looser (omega (arith, asked_fits d bufsz)) (
              take_in-IsProgress n (asked d bufsz) d got s (htrecv (asked d bufsz) s)
                (htrecv-IsFront (asked d bufsz) s) (asked_le d bufsz)
                (ap (λ x. x.0) (sym eq) ∙ told) some_n))
    ]

-- What `readData` takes from the header buffer.
abbrev pub from_buffer : ℕ → List ℕ → ℕ
from_buffer d xs = if ltb d (length xs) then d else length xs

from_buffer_whole :
    (d : ℕ) (xs ys : List ℕ)
    → take (from_buffer d xs) xs ++ take (d - from_buffer d xs) ys ≡ take d (xs ++ ys)
from_buffer_whole d xs ys = elim (Bool-cases (ltb d (length xs))) [
  | inl e ↦
      let none_left : d - d ≡ 0 = omega arith in
      rw (e, none_left, append-nil (take d xs)) (sym (take-append_short d xs ys (ground arith)))
  | inr e ↦ rw (e, take_all xs) (sym (take-append_le d xs ys (ground arith)))
]

read_data_cut :
    (bufsz : ℕ) (r : Reader)
    → (length r.buffer == 0) ≡ false
    → ltb bufsz (from_buffer r.dataleft r.buffer) ≡ true
    → read_data bufsz r ≡ (
      pos bufsz,
      take bufsz r.buffer,
      record r { dataleft = r.dataleft - bufsz; buffer = drop bufsz r.buffer },
    )
unfolding read_data
read_data_cut bufsz r some_left cut = rw (read_data, some_left, cut) refl

pub read_data_join :
    (bufsz : ℕ) (r : Reader)
    → (length r.buffer == 0) ≡ false
    → ltb bufsz (from_buffer r.dataleft r.buffer) ≡ false
    → read_data bufsz r
      ≡ read_net
          (bufsz - from_buffer r.dataleft r.buffer)
          (take (from_buffer r.dataleft r.buffer) r.buffer)
          (record {
            dataleft = r.dataleft - from_buffer r.dataleft r.buffer;
            buffer = [];
            net = r.net;
          })
unfolding read_data
read_data_join bufsz r some_left join = rw (read_data, some_left, join) refl

from_buffer_le : (d : ℕ) (xs : List ℕ) → from_buffer d xs ≤ length xs
from_buffer_le d xs = ground arith

from_buffer_due : (d : ℕ) (xs : List ℕ) → from_buffer d xs ≤ d
from_buffer_due d xs = ground arith

no_length : (xs : List ℕ) → (length xs == 0) ≡ true → xs ≡ []
no_length [] e = refl
no_length (x ∷ xs) e = let bad : zero ≡ suc zero = ground arith in cc

-- What is shown of a call of `read_data`.
abbrev Kept : ℕ → ℕ → Reader → Type 0
Kept n bufsz r = (read_data bufsz r).0 ≡ pos n → IsProgress n bufsz (body r) (read_data bufsz r)

empty_lem : (n bufsz : ℕ) (r : Reader) → 0 < n → r.buffer ≡ [] → Kept n bufsz r
unfolding read_data
empty_lem n bufsz r some_n e =
    subst (λ xs. Kept n bufsz (record { dataleft = r.dataleft; buffer = xs; net = r.net })) (sym e)
      (λ told. looser (omega arith) (read_net-IsProgress n bufsz r.dataleft [] r.net told some_n))

cut_lem :
    (n bufsz : ℕ) (r : Reader)
    → (length r.buffer == 0) ≡ false
    → ltb bufsz (from_buffer r.dataleft r.buffer) ≡ true
    → Kept n bufsz r
unfolding to_nat
cut_lem n bufsz r e cut told =
    let eq = read_data_cut bufsz r e cut in
    let few = from_buffer_le r.dataleft r.buffer in
    let due = from_buffer_due r.dataleft r.buffer in
    let below = ltb→lt bufsz (from_buffer r.dataleft r.buffer) cut in
    let taken = length-take_le bufsz r.buffer (omega arith) in
    subst (IsProgress n bufsz (body r)) (sym eq) (record {
      told = taken ∙ ap to_nat (ap (λ x. x.0) (sym eq) ∙ told);
      fits = omega arith;
      rest = take-drop_more bufsz r.dataleft r.buffer (stream r.net) (omega arith) (omega arith);
    })

join_lem :
    (n bufsz : ℕ) (r : Reader)
    → 0 < n
    → (length r.buffer == 0) ≡ false
    → ltb bufsz (from_buffer r.dataleft r.buffer) ≡ false
    → Kept n bufsz r
join_lem n bufsz r some_n e join told =
    let k = from_buffer r.dataleft r.buffer in
    let eq = read_data_join bufsz r e join in
    let few = from_buffer_le r.dataleft r.buffer in
    let taken = length-take_le k r.buffer few in
    let enough : length (take k r.buffer) + (bufsz - k) ≤ bufsz = ground arith in
    let rest : Reader = record { dataleft = r.dataleft - k; buffer = []; net = r.net } in
    subst (IsProgress n bufsz (body r)) (sym eq) (
      subst (λ w. IsProgress n bufsz w (read_net (bufsz - k) (take k r.buffer) rest))
        (from_buffer_whole r.dataleft r.buffer (stream r.net))
        (looser enough (
          read_net-IsProgress n (bufsz - k) (r.dataleft - k) (take k r.buffer) r.net
            (ap (λ x. x.0) (sym eq) ∙ told) some_n)))

-- When it returns a number above 0, `read_data` has written that many bytes, no more than the
-- caller's buffer holds, and they and what is left make up the body as it was.
pub read_data-IsProgress :
    (n bufsz : ℕ) (r : Reader)
    → (read_data bufsz r).0 ≡ pos n
    → 0 < n
    → IsProgress n bufsz (body r) (read_data bufsz r)
read_data-IsProgress n bufsz r told some_n = elim (Bool-cases (length r.buffer == 0)) [
  | inl e ↦ empty_lem n bufsz r some_n (no_length r.buffer e) told
  | inr e ↦ elim (Bool-cases (ltb bufsz (from_buffer r.dataleft r.buffer))) [
    | inl cut ↦ cut_lem n bufsz r e cut told
    | inr join ↦ join_lem n bufsz r some_n e join told
  ]
]
