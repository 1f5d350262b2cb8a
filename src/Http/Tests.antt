-- ===== src/Http/Tests.antt =====
-- Addresses, requests and answers.
use Prim.{tt}
use spectranet.Base.{
  ℕ, ◌-◌, ◌≡◌, refl, arith, ℤ, pos, true, some, none, List, [], ◌∷◌, codes, decimal, lacks,
  lacks-Lacks,
}
use spectranet.Http.Uri.{Malloc, no_uri, proto_http, parse_uri}
use spectranet.Http.Uri.Print.{with_user, with_slash, Roomy, parse_uri-with_user}
use spectranet.Http.Request.{Field, Surroundings, post, request_text}
use spectranet.Http.Request.Length.{request_text_lem, form_text, post_text, address}
use spectranet.Http.Data.{Reader, arrives, quiet, read_data}
use spectranet.Http.Data.Full.{read_data_full}
use spectranet.Http.Data.Loss.{IsProgress, body, read_data-IsProgress}
use spectranet.Http.Answer.{Numbers}
use spectranet.Http.Answer.Whole.{print_answer, status_line}
use spectranet.Http.Headers.{Header, Headers, get_headers, getheader}
use spectranet.Http.Headers.Print.{IsHeader, print_headers, getheader-get_headers}

abbrev memory : Malloc
memory e n = true

enough : Roomy memory
enough e n = refl

parse_uri-with_user_example :
    parse_uri memory (with_user (codes "amy") (codes "p:w") (codes "a.net") (codes "@x")) ≡ (
      pos 0,
      record no_uri {
        proto = proto_http;
        host = some (codes "a.net");
        location = some (with_slash (codes "@x"));
        user = some (codes "amy");
        passwd = some (codes "p:w");
      },
    )
unfolding lacks
parse_uri-with_user_example =
    parse_uri-with_user memory (codes "amy") (codes "p:w") 97 (codes ".net") (codes "@x") enough
      (lacks-Lacks 58 (codes "amy") refl) (lacks-Lacks 64 (codes "amy") refl)
      (lacks-Lacks 64 (codes "p:w") refl) (lacks-Lacks 47 (codes "a.net") refl)

abbrev user_field : Field
user_field = record { param = codes "user"; value = codes "amy" }

abbrev text_field : Field
text_field = record { param = codes "status"; value = codes "hi" }

abbrev fields : List Field
fields = user_field ∷ text_field ∷ []

abbrev around : Surroundings
around = record {
  base64 = λ s. s;
  memory = true;
  known_host = true;
  socket = pos 3;
  connects = true;
  sends = true;
}

request_text_lem_example :
    request_text around post (address (codes "a.net") (codes "/x")) fields
    ≡ some (post_text (codes "a.net") (codes "/x") fields)
unfolding form_text decimal
request_text_lem_example =
    request_text_lem around (codes "a.net") (codes "/x") fields (omega arith, (omega arith, tt))
      (omega arith)

-- Five bytes are due, two of them have come with the headers.
abbrev answer : Reader
answer = record { dataleft = 5; buffer = codes "ab"; net = quiet ∷ arrives (codes "cdefg") ∷ [] }

read_data-IsProgress_example : IsProgress 4 4 (body answer) (read_data 4 answer)
unfolding read_data
read_data-IsProgress_example = read_data-IsProgress 4 4 answer refl (omega arith)

read_data_full_example :
    read_data 2 (record { dataleft = 5; buffer = codes "ab"; net = arrives (codes "cde") ∷ [] })
    ≡ (pos 0, codes "ab", record { dataleft = 3; buffer = []; net = arrives (codes "cde") ∷ [] })
read_data_full_example = read_data_full 5 97 (codes "b") (codes "cde") [] (omega arith)

abbrev size_header : Header
size_header = record { hname = codes "Content-Length"; hdata = codes "5" }

abbrev kind_header : Header
kind_header = record { hname = codes "Server"; hdata = codes "a: b" }

size_header-IsHeader : IsHeader size_header
unfolding lacks
size_header-IsHeader = record {
  named = omega arith;
  name_line = lacks-Lacks 13 size_header.hname refl;
  name_colon = lacks-Lacks 58 size_header.hname refl;
  data_line = lacks-Lacks 13 size_header.hdata refl;
}

kind_header-IsHeader : IsHeader kind_header
unfolding lacks
kind_header-IsHeader = record {
  named = omega arith;
  name_line = lacks-Lacks 13 kind_header.hname refl;
  name_colon = lacks-Lacks 58 kind_header.hname refl;
  data_line = lacks-Lacks 13 kind_header.hdata refl;
}

abbrev no_headers : Headers
no_headers = record { headerhead = []; linked = []; dataleft = pos 0; chunked = true }

-- A number of one digit.
abbrev one_digit : List ℕ → ℤ
one_digit [] = pos 0
one_digit (c ∷ cs) = pos (c - 48)

abbrev numbers : Numbers
numbers = record { atoi = λ s. pos 200; strtol = one_digit; strtol16 = one_digit }

abbrev both : List Header
both = size_header ∷ kind_header ∷ []

abbrev head : List ℕ
head = print_answer (status_line (codes "HTTP/1.1") (codes "200 OK")) both (codes "bod")

getheader-get_headers_example :
    getheader
      (codes "Server")
      (get_headers 8
        (λ n. true)
        one_digit
        (print_headers (size_header ∷ kind_header ∷ []) (codes "body"))
        no_headers).2
    ≡ none
getheader-get_headers_example =
    getheader-get_headers (λ n. true) one_digit (size_header ∷ kind_header ∷ []) (codes "body") 8
      no_headers (codes "Server") refl (size_header-IsHeader, (kind_header-IsHeader, tt))
      (omega arith) refl
