-- ===== src/Http/Headers/Print.antt =====
-- Headers written out, and what `get_headers` makes of them.
use spectranet.Base.{
  ℕ, zero, suc, ◌+◌, ◌<◌, ◌≤◌, ◌≡◌, refl, ap, ◌∙◌, arith, ℤ, pos, Bool, true, none, some, List, [],
  ◌∷◌, ◌++◌, append_assoc, length, length-append, drop, codes, strstr, Lacks, lacks, lacks-Lacks,
  Lacks-append, strstr-append, leb, if◌then◌else◌,
}
use Prim.{tt}
use spectranet.Http.Headers.{
  Header, Headers, note, hdr_end, got, no_memory, get_single_header, get_headers, at_line_end,
  at_separator, next_header, line_end, split_at, getheader, find_header,
}

-- A header that can be written out, its name not empty.
pub record IsHeader (h : Header) : Type 0 where
  pub named : 0 < length h.hname
  pub name_line : Lacks 13 h.hname
  pub name_colon : Lacks 58 h.hname
  pub data_line : Lacks 13 h.hdata

abbrev pub AllHeaders : List Header → Type 0
AllHeaders [] = Unit {0}
AllHeaders (h ∷ hs) = IsHeader h × AllHeaders hs

abbrev pub line_of : Header → List ℕ
line_of h = h.hname ++ (codes ": " ++ h.hdata)

-- The headers, the line that ends them, and a body.
abbrev pub print_headers : List Header → List ℕ → List ℕ
print_headers [] body = line_end ++ body
print_headers (h ∷ hs) body = line_of h ++ (line_end ++ print_headers hs body)

-- The headers as they are noted.
abbrev pub note_all : (List ℕ → ℤ) → List Header → Headers → Headers
note_all strtol [] st = st
note_all strtol (h ∷ hs) st = note_all strtol hs (note strtol h st)

drop_append : (xs ys : List ℕ) (n : ℕ) → drop (length xs + n) (xs ++ ys) ≡ drop n ys
drop_append [] ys n = ap (λ k. drop k ys) (omega arith)
drop_append (x ∷ xs) ys n =
    let more : suc (length xs) + n ≡ suc (length xs + n) = omega arith in
    ap (λ k. drop k (x ∷ (xs ++ ys))) more ∙ drop_append xs ys n

-- The line of a header, its name not empty.
abbrev line_with : List ℕ → List ℕ → List ℕ
line_with name value = name ++ (codes ": " ++ value)

single_lem :
    (malloc : ℕ → Bool) (c : ℕ) (cs value rest : List ℕ)
    → malloc 6 ≡ true
    → Lacks 13 (c ∷ cs)
    → Lacks 58 (c ∷ cs)
    → Lacks 13 value
    → get_single_header malloc (line_with (c ∷ cs) value ++ (line_end ++ rest))
      ≡ got rest (record { hname = c ∷ cs; hdata = value })
unfolding get_single_header lacks
single_lem malloc c cs value rest room line colon data_line =
    let l = line_with (c ∷ cs) value in
    let s = l ++ (line_end ++ rest) in
    let on_line =
      Lacks-append 13 (c ∷ cs) (codes ": " ++ value) line
        (Lacks-append 13 (codes ": ") value (lacks-Lacks 13 (codes ": ") refl) data_line) in
    let from = codes ": " ++ (value ++ (line_end ++ rest)) in
    let split = append_assoc (c ∷ cs) (codes ": " ++ value) (line_end ++ rest) in
    let inner : leb (length (c ∷ cs)) (length l) ≡ true =
      ground (arith, length-append (c ∷ cs) (codes ": " ++ value)) in
    ap (at_line_end malloc s) (strstr-append l (line_end ++ rest) 13 (10 ∷ []) on_line refl)
    ∙ ap (at_separator malloc l (line_end ++ rest)) (
        ap (λ t. strstr t (codes ": ")) split ∙ strstr-append (c ∷ cs) from 58 (32 ∷ []) colon refl)
    ∙ ap
        (λ b.
          if b
          then split_at (leb (length (c ∷ cs)) (length l)) l (line_end ++ rest) (c ∷ cs) from
          else no_memory)
        room
    ∙ ap (λ b. split_at b l (line_end ++ rest) (c ∷ cs) from) inner
    ∙ ap (λ d. got rest (record { hname = c ∷ cs; hdata = d }))
        (drop_append (c ∷ cs) (codes ": " ++ value) 2)

header_lem :
    (malloc : ℕ → Bool) (name value rest : List ℕ)
    → malloc 6 ≡ true
    → IsHeader (record { hname = name; hdata = value })
    → get_single_header malloc (line_with name value ++ (line_end ++ rest))
      ≡ got rest (record { hname = name; hdata = value })
header_lem malloc [] value rest room ok =
    let named = ok.named in let bad : 1 ≤ 0 = omega arith in elim bad [ ]
header_lem malloc (c ∷ cs) value rest room ok =
    single_lem malloc c cs value rest room ok.name_line ok.name_colon ok.data_line

end_lem :
    (malloc : ℕ → Bool) (body : List ℕ) → get_single_header malloc (line_end ++ body) ≡ hdr_end body
unfolding get_single_header
end_lem malloc body =
    ap (at_line_end malloc (line_end ++ body))
      (strstr-append [] (line_end ++ body) 13 (10 ∷ []) tt refl)

-- Headers that are written out come back: with space for each, a round for each and one for the end,
-- the loop of `getHeaders` ends with result 0 in front of the body, and it has noted the headers in
-- their order. A name is not empty and has no ':', and neither it nor the data has a carriage return.
pub get_headers-print_headers :
    (malloc : ℕ → Bool) (strtol : List ℕ → ℤ) (hs : List Header) (body : List ℕ) (rounds : ℕ)
    (st : Headers)
    → malloc 6 ≡ true
    → AllHeaders hs
    → length hs < rounds
    → get_headers rounds malloc strtol (print_headers hs body) st
      ≡ (pos 0, some body, note_all strtol hs st)
unfolding get_headers note
get_headers-print_headers malloc strtol hs body zero st room ok h =
    let bad : 1 ≤ 0 = omega arith in elim bad [ ]
get_headers-print_headers malloc strtol [] body (suc rounds) st room ok h =
    ap (next_header (get_headers rounds malloc strtol) strtol st) (end_lem malloc body)
get_headers-print_headers malloc strtol (x ∷ hs) body (suc rounds) st room ok h =
    ap (next_header (get_headers rounds malloc strtol) strtol st)
      (header_lem malloc x.hname x.hdata (print_headers hs body) room ok.0)
    ∙ get_headers-print_headers malloc strtol hs body rounds (note strtol x st) room ok.1
        (omega arith)

note_all-headerhead :
    (strtol : List ℕ → ℤ) (hs : List Header) (st : Headers)
    → (note_all strtol hs st).headerhead ≡ st.headerhead
unfolding note
note_all-headerhead strtol [] st = refl
note_all-headerhead strtol (h ∷ hs) st = note_all-headerhead strtol hs (note strtol h st)

-- After headers that are written out were read with `headerhead` NULL before, `getheader` finds none,
-- whatever its name, given that there is space for each header, a round for each and one for the end,
-- a name is not empty and has no ':', and neither it nor the data has a carriage return.
pub getheader-get_headers :
    (malloc : ℕ → Bool) (strtol : List ℕ → ℤ) (hs : List Header) (body : List ℕ) (rounds : ℕ)
    (st : Headers) (name : List ℕ)
    → malloc 6 ≡ true
    → AllHeaders hs
    → length hs < rounds
    → st.headerhead ≡ []
    → getheader name (get_headers rounds malloc strtol (print_headers hs body) st).2 ≡ none
unfolding getheader find_header
getheader-get_headers malloc strtol hs body rounds st name room ok h empty =
    ap (λ r. getheader name r.2)
      (get_headers-print_headers malloc strtol hs body rounds st room ok h)
    ∙ ap (find_header name) (note_all-headerhead strtol hs st ∙ empty)
