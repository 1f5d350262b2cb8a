-- ===== src/Http/Request/Length.antt =====
-- How long a request is, and what it says of its length.
use spectranet.Base.{
  ℕ, ◌+◌, ◌-◌, ◌≤◌, ◌<◌, ◌≡◌, refl, ap, sym, ◌∙◌, arith, true, some, none, List, [], ◌∷◌, ◌++◌,
  length, length-append, take_whole, append_assoc, append-nil, codes, ltb, strlcat, pos, decimal,
}
use spectranet.Http.Uri.{Uri}
use spectranet.Http.Request.{
  Field, Surroundings, request_text, post, start_line, post_headers, add_std_headers, add_common,
  postsize, field_sizes, form_body, behind, add_form, sprintf, tmpbuf_size, add_all, line_end,
}

field_length :
    (p v b : List ℕ) → length (p ++ (codes "=" ++ (v ++ b))) ≡ length p + 1 + length v + length b
field_length p v b = omega (arith, length-append p (codes "=" ++ (v ++ b)), length-append v b)

length-form_body :
    (f : Field) (fs : List Field)
    → length (form_body (f ∷ fs)) ≡ field_sizes (f ∷ fs) + length (f ∷ fs) + 1
unfolding field_sizes form_body
length-form_body f [] = omega (
  arith,
  field_length f.param f.value line_end,
  length-append (f.param ++ (codes "=" ++ (f.value ++ line_end))) [],
)
length-form_body f (g ∷ fs) = omega (
  arith,
  field_length f.param f.value (codes "&"),
  length-append (f.param ++ (codes "=" ++ (f.value ++ codes "&"))) (form_body (g ∷ fs)),
  length-form_body g fs,
)

-- The content length that is worked out for a form of one field or more is less than the length of
-- the form as it is written, by one for each field.
pub postsize_lem :
    (f : Field) (fs : List Field)
    → postsize (f ∷ fs) + length (f ∷ fs) ≡ length (form_body (f ∷ fs))
unfolding postsize field_sizes form_body
postsize_lem f fs = omega (arith, length-form_body f fs)

room_lem : (n d s : ℕ) → d + s < n → (ltb d n ≡ true) × (s ≤ n - d - 1)
room_lem n d s h = (ground arith, omega arith)

strlcat_fits : (n : ℕ) (dst s : List ℕ) → length dst + length s < n → strlcat n dst s ≡ dst ++ s
unfolding strlcat
strlcat_fits n dst s h =
    let (room, small) = room_lem n (length dst) (length s) h in
    rw (strlcat, room, take_whole (n - length dst - 1) s small) refl

-- All the texts in a row.
abbrev pub concat : List (List ℕ) → List ℕ
concat [] = []
concat (s ∷ l) = s ++ concat l

add_all_fits :
    (n : ℕ) (hdr : List ℕ) (l : List (List ℕ))
    → length hdr + length (concat l) < n
    → add_all n hdr l ≡ hdr ++ concat l
add_all_fits n hdr [] h = sym (append-nil hdr)
add_all_fits n hdr (s ∷ l) h =
    let total = length-append s (concat l) in
    rw (strlcat_fits n hdr s (omega arith)) (
      add_all_fits n (hdr ++ s) l (omega (arith, length-append hdr s))
      ∙ append_assoc hdr s (concat l))

-- Each field fits the buffer in which it is written out.
abbrev pub ShortFields : List Field → Type 0
ShortFields [] = Unit {0}
ShortFields (f ∷ fs) = (length f.param + length f.value < 117) × ShortFields fs

fits_lem : (n k : ℕ) → k < n → ltb k n ≡ true
fits_lem n k h = ground arith

sprintf_fits : (n : ℕ) (s : List ℕ) → length s < n → sprintf n s ≡ some s
unfolding sprintf
sprintf_fits n s h = rw (sprintf, fits_lem n (length s) h) refl

short_lem :
    (f : Field) (fs : List Field)
    → length f.param + length f.value < 117
    → sprintf tmpbuf_size (f.param ++ (codes "=" ++ (f.value ++ behind fs)))
      ≡ some (f.param ++ (codes "=" ++ (f.value ++ behind fs)))
short_lem f [] h = sprintf_fits 120 _ (omega (arith, field_length f.param f.value line_end))
short_lem f (g ∷ fs) h =
    sprintf_fits 120 _ (omega (arith, field_length f.param f.value (codes "&")))

add_form_fits :
    (fs : List Field) (hdr : List ℕ)
    → ShortFields fs
    → length hdr + length (form_body fs) < 512
    → add_form fs hdr ≡ some (hdr ++ form_body fs)
unfolding add_form form_body
add_form_fits [] hdr short h = ap some (sym (append-nil hdr))
add_form_fits (f ∷ fs) hdr short h =
    let tmp = f.param ++ (codes "=" ++ (f.value ++ behind fs)) in
    let total = length-append tmp (form_body fs) in
    rw (add_form, short_lem f fs short.0, strlcat_fits 512 hdr tmp (omega arith))
      (add_form_fits fs (hdr ++ tmp) short.1 (omega (arith, length-append hdr tmp))
        ∙ ap some (append_assoc hdr tmp (form_body fs)))

-- The headers that every request has, in a row.
abbrev pub common_lines : List ℕ → List (List ℕ)
common_lines host =
    (codes "User-Agent: ZXSpectrumHTTP/1.0" ++ line_end)
    ∷ (codes "Accept: */*" ++ line_end)
    ∷ codes "Host: "
    ∷ host
    ∷ line_end
    ∷ []

-- The address of a request without a user.
abbrev pub address : List ℕ → List ℕ → Uri
address host location = record {
  proto = pos 0;
  host = some host;
  port = 80;
  location = some location;
  user = none;
  passwd = none;
}

-- The text of a POST request before its form, in the parts that the code adds.
abbrev pub post_head : List ℕ → List ℕ → List Field → List ℕ
post_head host location form =
    (start_line (codes "POST ") location ++ concat (common_lines host))
    ++ concat (post_headers form)

request_text-parts :
    (e : Surroundings) (host location : List ℕ) (form : List Field)
    → ShortFields form
    → length (post_head host location form) + length (form_body form) < 512
    → request_text e post (address host location) form
      ≡ some (post_head host location form ++ form_body form)
unfolding request_text add_std_headers add_common
request_text-parts e host location form short fits =
    let start = start_line (codes "POST ") location in
    let a = length-append start (concat (common_lines host)) in
    let b = length-append (start ++ concat (common_lines host)) (concat (post_headers form)) in
    rw
      (
        request_text,
        sprintf_fits 512 start (omega arith),
        add_all_fits 512 start (common_lines host) (omega arith),
        add_all_fits 512 (start ++ concat (common_lines host)) (post_headers form) (omega arith),
      )
      (add_form_fits form (post_head host location form) short fits)

abbrev pub crlf : List ℕ
crlf = 13 ∷ 10 ∷ []

-- A form as it is to be sent: its fields with ampersands between them and one end of a line.
unfoldable pub form_text : List Field → List ℕ
form_text [] = []
form_text (f ∷ []) = f.param ++ (codes "=" ++ (f.value ++ crlf))
form_text (f ∷ (g ∷ fs)) = (f.param ++ (codes "=" ++ (f.value ++ codes "&"))) ++ form_text (g ∷ fs)

form_body-form_text : (form : List Field) → form_body form ≡ form_text form
unfolding form_body form_text
form_body-form_text [] = refl
form_body-form_text (f ∷ []) = append-nil (f.param ++ (codes "=" ++ (f.value ++ crlf)))
form_body-form_text (f ∷ (g ∷ fs)) =
    ap (λ l. (f.param ++ (codes "=" ++ (f.value ++ codes "&"))) ++ l) (form_body-form_text (g ∷ fs))

-- The length that the request gives for its form: short by one for each field.
abbrev pub told_length : List Field → ℕ
told_length form = length (form_text form) - length form

postsize-told_length : (form : List Field) → postsize form ≡ told_length form
unfolding postsize form_text
postsize-told_length [] = refl
postsize-told_length (f ∷ fs) =
    omega (arith, postsize_lem f fs, ap length (form_body-form_text (f ∷ fs)))

-- A POST request without a user, written out.
abbrev pub post_text : List ℕ → List ℕ → List Field → List ℕ
post_text host location form = concat (
    codes "POST "
    ∷ location
    ∷ codes " HTTP/1.1"
    ∷ crlf
    ∷ codes "User-Agent: ZXSpectrumHTTP/1.0"
    ∷ crlf
    ∷ codes "Accept: */*"
    ∷ crlf
    ∷ codes "Host: "
    ∷ host
    ∷ crlf
    ∷ codes "Content-Length: "
    ∷ decimal (pos (told_length form))
    ∷ crlf
    ∷ codes "Content-Type: application/x-www-form-urlencoded"
    ∷ crlf
    ∷ crlf
    ∷ form_text form
    ∷ [])

post_head-post_text :
    (host location : List ℕ) (form : List Field)
    → post_head host location form ++ form_body form ≡ post_text host location form
post_head-post_text host location form =
    rw (postsize-told_length form, form_body-form_text form) (simp (append_assoc, append-nil))

-- A POST request without a user is the start line, the four headers, a blank line and the form with
-- ampersands between its fields and one end of a line, and the length that it gives is short of that
-- of the form by one for each field; if each field fits the buffer of 120 bytes and the request the
-- one of 512.
pub request_text_lem :
    (e : Surroundings) (host location : List ℕ) (form : List Field)
    → ShortFields form
    → length (post_text host location form) < 512
    → request_text e post (address host location) form ≡ some (post_text host location form)
request_text_lem e host location form short fits =
    let same = post_head-post_text host location form in
    request_text-parts e host location form short
      (omega (arith, ap length same, length-append (post_head host location form) (form_body form)))
    ∙ ap some same
