-- ===== src/Http/Answer/Whole.antt =====
-- An answer whose head comes in one piece.
use spectranet.Base.{ℕ, pos, false, List, [], ◌∷◌, ◌++◌}
use spectranet.Http.Headers.{Header, Headers, line_end}
use spectranet.Http.Headers.Print.{line_of, print_headers}
use spectranet.Http.Answer.{Answer}

-- The end of the headers stands behind the end of the first line, or further on.
before_sep : List Header → List ℕ
before_sep [] = []
before_sep (h ∷ hs) = line_end ++ (line_of h ++ before_sep hs)

-- The head of an answer, and the body.
abbrev pub print_answer : List ℕ → List Header → List ℕ → List ℕ
print_answer first hs body = first ++ (line_end ++ print_headers hs body)

-- The first line: the protocol, a blank, and the code with what follows it.
abbrev pub status_line : List ℕ → List ℕ → List ℕ
status_line proto code = proto ++ (32 ∷ code)

-- The globals at the start of `readHeaders`.
abbrev cleared : Headers → Headers
cleared st = record st { dataleft = pos 0; chunked = false }
