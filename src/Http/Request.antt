-- ===== src/Http/Request.antt =====
-- Forms and requests: addFormData, postsize, addStdHeaders and request of z88dk/libhttp.
pub mod Length
use spectranet.Base.{
  ℕ, ◌+◌, ℤ, pos, negsuc, Bool, true, false, Option, none, some, List, [], ◌∷◌, ◌++◌, length,
  if◌then◌else◌, ltb, ltb_ℤ, codes, decimal, strlcat,
}
use spectranet.Http.Uri.{Uri}

-- `Formdata`, without the link.
pub record Field : Type 0 where
  pub param : List ℕ
  pub value : List ℕ

-- `addFormData` on the list from `formhead` to `formtail`.
unfoldable pub add_form_data : List ℕ → List ℕ → List Field → List Field
add_form_data param value form = form ++ (record { param = param; value = value } ∷ [])

-- The loop of `postsize`.
unfoldable pub field_sizes : List Field → ℕ
field_sizes [] = 0
field_sizes (f ∷ fs) = length f.param + length f.value + 1 + field_sizes fs

unfoldable pub postsize : List Field → ℕ
unfolding field_sizes
postsize [] = 0
postsize (f ∷ fs) = field_sizes (f ∷ fs) + 1

abbrev pub line_end : List ℕ
line_end = 13 ∷ 10 ∷ []

-- What stands behind a field: an ampersand, or the end of the line behind the last.
abbrev pub behind : List Field → List ℕ
behind [] = line_end
behind (f ∷ fs) = codes "&"

-- `sprintf` to a buffer; a text that does not fit is written past its end.
unfoldable pub sprintf : ℕ → List ℕ → Option (List ℕ)
sprintf size s = if ltb (length s) size then some s else none

abbrev pub tmpbuf_size : ℕ
tmpbuf_size = 120

abbrev pub hdrbufsz : ℕ
hdrbufsz = 512

-- The form as the body of a request.
unfoldable pub form_body : List Field → List ℕ
form_body [] = []
form_body (f ∷ fs) = (f.param ++ (codes "=" ++ (f.value ++ behind fs))) ++ form_body fs

-- The loop that adds the form to the request, field by field.
unfoldable pub add_form : List Field → List ℕ → Option (List ℕ)
unfolding sprintf strlcat
add_form [] hdr = some hdr
add_form (f ∷ fs) hdr =
    elim (sprintf tmpbuf_size (f.param ++ (codes "=" ++ (f.value ++ behind fs)))) [
      | none ↦ none
      | some tmp ↦ add_form fs (strlcat hdrbufsz hdr tmp)
    ]

-- What the request takes from its surroundings: the text that stands in the buffer behind
-- `base64enc`, whether there is memory for it, what the calls on the network answer.
pub record Surroundings : Type 0 where
  pub base64 : List ℕ → List ℕ
  pub memory : Bool
  pub known_host : Bool
  pub socket : ℤ
  pub connects : Bool
  pub sends : Bool

abbrev pub add_all : ℕ → List ℕ → List (List ℕ) → List ℕ
add_all size hdr [] = hdr
add_all size hdr (s ∷ l) = add_all size (strlcat size hdr s) l

-- The header for the user; a NULL password is an error.
unfoldable pub add_auth : Surroundings → List ℕ → ℕ → List ℕ → List ℕ → List ℕ
unfolding strlcat
add_auth e hdr size user passwd =
    add_all size hdr
      (codes "Authorization: Basic " ∷ e.base64 (user ++ (codes ":" ++ passwd)) ∷ line_end ∷ [])

-- The headers that every request has.
unfoldable pub add_common : List ℕ → ℕ → List ℕ → List ℕ
unfolding strlcat
add_common hdr size host = add_all size hdr (
    (codes "User-Agent: ZXSpectrumHTTP/1.0" ++ line_end)
    ∷ (codes "Accept: */*" ++ line_end)
    ∷ codes "Host: "
    ∷ host
    ∷ line_end
    ∷ [])

-- `addStdHeaders`; `none` is a NULL that is read. Without memory nothing is added.
unfoldable pub add_std_headers : Surroundings → List ℕ → Uri → ℕ → Option (List ℕ)
unfolding add_auth add_common
add_std_headers e hdr u size = elim u.host [
  | none ↦ none
  | some host ↦ elim u.user [
    | none ↦ some (add_common hdr size host)
    | some user ↦ elim u.passwd [
      | none ↦ none
      | some passwd ↦
          if e.memory
          then some (add_common (add_auth e hdr size user passwd) size host)
          else some hdr
    ]
  ]
]

pub data Method : Type 0 where
  get post : Method

abbrev pub start_line : List ℕ → List ℕ → List ℕ
start_line method location = method ++ (location ++ (codes " HTTP/1.1" ++ line_end))

abbrev pub and_then : {A B : Type 0} → Option A → (A → Option B) → Option B
and_then none f = none
and_then (some a) f = f a

-- The headers behind the common ones: the length of the form and its type.
abbrev pub post_headers : List Field → List (List ℕ)
post_headers form =
    codes "Content-Length"
    ∷ codes ": "
    ∷ (decimal (pos (postsize form)) ++ line_end)
    ∷ (codes "Content-Type: application/x-www-form-urlencoded" ++ line_end)
    ∷ line_end
    ∷ []

-- The text of a request.
unfoldable pub request_text : Surroundings → Method → Uri → List Field → Option (List ℕ)
unfolding sprintf add_std_headers add_form postsize strlcat decimal
request_text e get u form = and_then u.location (λ location.
    and_then (sprintf hdrbufsz (start_line (codes "GET ") location)) (λ hdr.
      and_then (add_std_headers e hdr u hdrbufsz) (λ hdr'. some (strlcat hdrbufsz hdr' line_end))))
request_text e post u form = and_then u.location (λ location.
    and_then (sprintf hdrbufsz (start_line (codes "POST ") location)) (λ hdr.
      and_then (add_std_headers e hdr u hdrbufsz)
        (λ hdr'. add_form form (add_all hdrbufsz hdr' (post_headers form)))))

-- `request`: the socket, or an error, with what was sent.
unfoldable pub request : Surroundings → Method → Uri → List Field → Option (ℤ × List ℕ)
unfolding request_text
request e method u form =
    if e.known_host
    then (if ltb_ℤ e.socket (pos 0)
        then some (negsuc 4, [])
        else if e.connects
        then and_then (request_text e method u form)
            (λ text. some (if e.sends then (e.socket, text) else (negsuc 11, [])))
        else some (negsuc 6, []))
    else some (negsuc 5, [])
