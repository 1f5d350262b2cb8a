-- ===== src/Http/Headers.antt =====
-- The headers of an answer: getSingleHeader and the loop of getHeaders in z88dk/libhttp/readHeaders.c,
-- and getheader.c. A text is the bytes up to its 0; `strtol` and `malloc` are the library's.
pub mod Print
use spectranet.Base.{
  ℕ, zero, suc, ◌+◌, ◌≤◌, ℤ, pos, negsuc, Bool, true, false, ◌&&◌, Option, none, some, List, [],
  ◌∷◌, ◌++◌, length, drop, codes, strstr, same_text, leb, if◌then◌else◌, ◌==◌,
}

pub record Header : Type 0 where
  pub hname : List ℕ
  pub hdata : List ℕ

-- The globals: the list from `headerhead` on, the list that the headers make, the `next` of each the
-- one that comes after it, `dataleft` and `chunked`. No code but the one that frees the headers sets
-- `headerhead`.
pub record Headers : Type 0 where
  pub headerhead : List Header
  pub linked : List Header
  pub dataleft : ℤ
  pub chunked : Bool

abbrev pub line_end : List ℕ
line_end = 13 ∷ 10 ∷ []

-- A header joins the list, and two of them are looked at.
unfoldable pub note : (List ℕ → ℤ) → Header → Headers → Headers
note strtol h s = record s {
  linked = s.linked ++ (h ∷ []);
  dataleft = if same_text h.hname (codes "Content-Length") then strtol h.hdata else s.dataleft;
  chunked =
      if same_text h.hname (codes "Transfer-Encoding") && same_text h.hdata (codes "chunked")
      then true
      else s.chunked;
}

-- What `getSingleHeader` comes to, with the text from the pointer on that it returns.
pub data Single : Type 0 where
  hdr_end : List ℕ → Single
  got : List ℕ → Header → Single
  no_hdr_end no_memory : Single

-- The header of a line whose end is behind `line`, where the text is `name` up to its first ": ". If
-- that is on a later line the name is the whole line, and what is left ends there.
abbrev pub split_at : Bool → List ℕ → List ℕ → List ℕ → List ℕ → Single
split_at true line after name from =
    got (drop 2 after) (record { hname = name; hdata = drop (length name + 2) line })
split_at false line after name from =
    got (drop (length line + 2) name) (record { hname = line; hdata = drop 2 from })

-- What is made of a line and of the place of ": ".
abbrev pub at_separator : (ℕ → Bool) → List ℕ → List ℕ → Option (List ℕ × List ℕ) → Single
at_separator malloc line after none = no_hdr_end
at_separator malloc line after (some (name, from)) =
    if malloc 6 then split_at (leb (length name) (length line)) line after name from else no_memory

abbrev pub at_line_end : (ℕ → Bool) → List ℕ → Option (List ℕ × List ℕ) → Single
at_line_end malloc s none = no_hdr_end
at_line_end malloc s (some ([], after)) = hdr_end (drop 2 after)
at_line_end malloc s (some (c ∷ cs, after)) =
    at_separator malloc (c ∷ cs) after (strstr s (codes ": "))

unfoldable pub get_single_header : (ℕ → Bool) → List ℕ → Single
unfolding strstr
get_single_header malloc s = at_line_end malloc s (strstr s line_end)

abbrev pub ehttp_hdrerr : ℤ
ehttp_hdrerr = negsuc 8

-- What the loop of `getHeaders` does with a header, and what it goes on with.
abbrev pub next_header :
    (List ℕ → Headers → ℤ × Option (List ℕ) × Headers)
    → (List ℕ → ℤ)
    → Headers
    → Single
    → ℤ × Option (List ℕ) × Headers
next_header go_on strtol st (hdr_end rest) = (pos 0, some rest, st)
next_header go_on strtol st (got rest h) = go_on rest (note strtol h st)
next_header go_on strtol st no_hdr_end = (ehttp_hdrerr, none, st)
next_header go_on strtol st no_memory = (ehttp_hdrerr, none, st)

-- The loop of `getHeaders` over the lines behind the first: its result, the text behind the headers,
-- and the globals. A header is 2 characters at least, so that the loop ends.
unfoldable pub get_headers :
    ℕ → (ℕ → Bool) → (List ℕ → ℤ) → List ℕ → Headers → ℤ × Option (List ℕ) × Headers
unfolding get_single_header note
get_headers zero malloc strtol s st = (ehttp_hdrerr, none, st)
get_headers (suc rounds) malloc strtol s st =
    next_header (get_headers rounds malloc strtol) strtol st (get_single_header malloc s)

-- `getheader`, over the list from `headerhead` on.
unfoldable pub find_header : List ℕ → List Header → Option Header
unfolding same_text
find_header name [] = none
find_header name (h ∷ hs) =
    let rest = find_header name hs in if same_text h.hname name then some h else rest

unfoldable pub getheader : List ℕ → Headers → Option Header
unfolding find_header
getheader name s = find_header name s.headerhead
