-- ===== src/Http/Answer.antt =====
-- The head of an answer: the receiving half of getHeaders, and readHeaders, of
-- z88dk/libhttp/readHeaders.c.
pub mod Search
pub mod Whole
use spectranet.Base.{
  ℕ, zero, suc, ◌+◌, ◌-◌, ℤ, pos, negsuc, Bool, true, false, Option, none, some, List, [], ◌∷◌,
  ◌++◌, length, take, drop, codes, strstr, c_text, ltb, if◌then◌else◌,
}
use spectranet.Http.Data.{Arrival, htrecv}
use spectranet.Http.Headers.{Headers, line_end, get_headers}

abbrev pub hdr_sep : List ℕ
hdr_sep = 13 ∷ 10 ∷ 13 ∷ 10 ∷ []

abbrev pub ehttp_nohdrend : ℤ
ehttp_nohdrend = negsuc 12

abbrev pub ehttp_nothttp : ℤ
ehttp_nothttp = negsuc 13

abbrev pub ehttp_nochunksize : ℤ
ehttp_nochunksize = negsuc 14

-- `HDRBUFSZ` without the place of a NUL.
abbrev pub header_room : ℕ
header_room = 1399

-- The loop that receives: whether the end of the headers was found, else the result, which is 0
-- where `recv` gets nothing; the buffer, and what is still to come.
pub data Received : Type 0 where
  complete : List ℕ → List Arrival → Received
  stopped : ℤ → List ℕ → List Arrival → Received

-- The loop is left where the text has the end of the headers.
abbrev pub complete_if : List ℕ → List Arrival → Option (List ℕ × List ℕ) → Received → Received
complete_if buf l none later = later
complete_if buf l (some found) later = complete buf l

-- After a `recv`: `go_on` is the rest of the loop.
abbrev pub joined :
    (ℕ → List ℕ → List Arrival → Received) → ℕ → List ℕ → ℤ × List ℕ × List Arrival → Received
unfolding strstr c_text
joined go_on hremain buf (negsuc n, bs, l) = stopped (negsuc n) buf l
joined go_on hremain buf (pos zero, bs, l) = stopped (pos 0) buf l
joined go_on hremain buf (pos (suc n), bs, l) =
    let later =
      if ltb (hremain - suc n) 1
      then stopped ehttp_nohdrend (buf ++ bs) l
      else go_on (hremain - suc n) (buf ++ bs) l in
    complete_if (buf ++ bs) l (strstr (c_text (buf ++ bs)) hdr_sep) later

-- A round takes a byte at least, so that there are no more rounds than there is room.
unfoldable pub receive_headers : ℕ → ℕ → List ℕ → List Arrival → Received
unfolding htrecv joined
receive_headers zero hremain buf l = stopped ehttp_nohdrend buf l
receive_headers (suc rounds) hremain buf l =
    joined (receive_headers rounds) hremain buf (htrecv hremain l)

-- What `readHeaders` leaves behind: its result, the code, the text from `bufptr` on, the globals and
-- what is still to come.
pub record Answer : Type 0 where
  pub result : ℤ
  pub httpcode : ℤ
  pub bufptr : Option (List ℕ)
  pub globals : Headers
  pub net : List Arrival

-- The library's conversions: `atoi`, and `strtol` with base 0 and with base 16.
pub record Numbers : Type 0 where
  pub atoi : List ℕ → ℤ
  pub strtol : List ℕ → ℤ
  pub strtol16 : List ℕ → ℤ

-- The code is in the four characters from the first blank on.
abbrev pub set_code : Numbers → Answer → Option (List ℕ × List ℕ) → Answer
set_code n a none = record a { result = ehttp_nothttp }
set_code n a (some (before, from)) = record a { result = pos 0; httpcode = n.atoi (take 4 from) }

-- The size of the first chunk, where the headers say that there are chunks.
abbrev pub take_chunk : Numbers → Answer → List ℕ → Option (List ℕ × List ℕ) → Answer
take_chunk n a s none = record a { result = ehttp_nochunksize }
take_chunk n a s (some (digits, after)) =
    set_code n
      (record a {
        bufptr = some (drop 2 after);
        globals = record a.globals { dataleft = n.strtol16 digits };
      })
      (strstr s (codes " "))

abbrev pub take_text : Numbers → Answer → List ℕ → Option (List ℕ) → Answer
unfolding strstr
take_text n a s none = set_code n a (strstr s (codes " "))
take_text n a s (some text) =
    if a.globals.chunked
    then take_chunk n a s (strstr text line_end)
    else set_code n a (strstr s (codes " "))

-- `readHeaders` behind a `getHeaders` with result 0; `s` is the text in the buffer.
abbrev pub finish : Numbers → Answer → List ℕ → Answer
unfolding strstr
finish n a s = take_text n a s a.bufptr

-- The lines behind the first are taken apart.
abbrev pub take_lines : Numbers → List ℕ → List Arrival → ℤ × Option (List ℕ) × Headers → Answer
take_lines n s l (pos k, text, st) =
    finish n (record { result = pos k; httpcode = pos 0; bufptr = text; globals = st; net = l }) s
take_lines n s l (negsuc k, text, st) = record {
  result = negsuc k;
  httpcode = pos 0;
  bufptr = text;
  globals = st;
  net = l;
}

abbrev pub take_first :
    (ℕ → Bool) → Numbers → Headers → List Arrival → Option (List ℕ × List ℕ) → Answer
unfolding get_headers
take_first malloc n st l none = record {
  result = ehttp_nothttp;
  httpcode = pos 0;
  bufptr = none;
  globals = st;
  net = l;
}
take_first malloc n st l (some (first, after)) =
    take_lines n first l (get_headers header_room malloc n.strtol (drop 2 after) st)

abbrev pub take_received : (ℕ → Bool) → Numbers → Headers → Received → Answer
unfolding take_first strstr c_text
take_received malloc n st (complete buf l) = take_first malloc n st l (strstr (c_text buf) line_end)
take_received malloc n st (stopped (negsuc k) buf l) = record {
  result = negsuc k;
  httpcode = pos 0;
  bufptr = none;
  globals = st;
  net = l;
}
take_received malloc n st (stopped (pos k) buf l) =
    finish n (record { result = pos k; httpcode = pos 0; bufptr = none; globals = st; net = l })
      (c_text buf)

-- `readHeaders`, its buffer allocated.
unfoldable pub read_headers : (ℕ → Bool) → Numbers → Headers → List Arrival → Answer
unfolding receive_headers take_received finish
read_headers malloc n st l =
    take_received malloc n (record st { dataleft = pos 0; chunked = false })
      (receive_headers header_room header_room [] l)
