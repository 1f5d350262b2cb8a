-- ===== src/Http/Uri.antt =====
-- `parseURI` and `parseProto` of z88dk/libhttp.
pub mod Print
use spectranet.Base.{
  ℕ, zero, suc, ◌+◌, ◌-◌, ℤ, pos, negsuc, ◌-ℤ◌, Bool, true, false, ◌&&◌, ◌||◌, not, Option, none,
  some, List, [], ◌∷◌, ◌++◌, length, drop, if◌then◌else◌, codes, strstr, same_start, strlcpy,
}

-- `URI`; a pointer is NULL as `none`.
pub record Uri : Type 0 where
  pub proto : ℤ
  pub host : Option (List ℕ)
  pub port : ℕ
  pub location : Option (List ℕ)
  pub user : Option (List ℕ)
  pub passwd : Option (List ℕ)

-- What is allocated for a `Uri`.
pub data Element : Type 0 where
  user_element passwd_element host_element location_element : Element

abbrev pub ehttp_badproto : ℤ
ehttp_badproto = negsuc 0

abbrev pub ehttp_baduserpw : ℤ
ehttp_baduserpw = negsuc 1

abbrev pub ehttp_baduri : ℤ
ehttp_baduri = negsuc 2

abbrev pub ehttp_nohost : ℤ
ehttp_nohost = negsuc 3

abbrev pub enomem : ℤ
enomem = negsuc 254

abbrev pub proto_http : ℤ
proto_http = pos 0

abbrev pub proto_ftp : ℤ
proto_ftp = pos 1

-- `memset(parsed, 0, sizeof(URI))`
abbrev pub no_uri : Uri
no_uri = record {
  proto = pos 0;
  host = none;
  port = 0;
  location = none;
  user = none;
  passwd = none;
}

-- Only the length of what stands before the separator is compared, so a part of a name will do.
unfoldable pub parse_proto : List ℕ → ℕ → ℤ
unfolding same_start
parse_proto proto protosz =
    if same_start protosz proto (codes "http")
    then proto_http
    else if same_start protosz proto (codes "ftp")
    then proto_ftp
    else ehttp_badproto

-- What `malloc` answers, for each element and size.
abbrev pub Malloc : Type 0
Malloc = Element → ℤ → Bool

-- The rest goes into the location; an empty one is "/".
unfoldable pub parse_location : Malloc → Uri → List ℕ → ℤ × Uri
unfolding strlcpy
parse_location malloc p [] =
    if malloc location_element (pos 2)
    then (pos 0, record p { location = some (codes "/") })
    else (enomem, p)
parse_location malloc p (c ∷ s) =
    let sz = length (c ∷ s) in
    if malloc location_element (pos (sz + 1))
    then (pos 0, record p { location = some (strlcpy (pos (sz + 1)) (c ∷ s)) })
    else (enomem, p)

-- The host is what stands before the first slash; without one there is no host.
unfoldable pub parse_host : Malloc → Uri → List ℕ → ℤ × Uri
unfolding strstr parse_location strlcpy
parse_host malloc p uri = elim (strstr uri (codes "/")) [
  | none ↦ parse_location malloc p uri
  | some ([], rest) ↦ (ehttp_nohost, p)
  | some (c ∷ before, rest) ↦
      let sz = length (c ∷ before) + 1 in
      if malloc host_element (pos sz)
      then parse_location malloc (record p { host = some (strlcpy (pos sz) uri) }) rest
      else (enomem, p)
]

-- The user and the password, where there is an '@': `at` is the text before it, `rest` the text from
-- it on. The first ':' may stand behind the '@', and then the size of the password is negative.
unfoldable pub parse_user : Malloc → Uri → List ℕ → List ℕ → List ℕ → ℤ × Uri
unfolding strstr parse_host strlcpy ◌-ℤ◌
parse_user malloc p uri before rest = elim (strstr uri (codes ":")) [
  | none ↦ (ehttp_baduserpw, p)
  | some (name, from_colon) ↦
      let usersz = pos (length name + 1) in
      let passsz = pos (length before) -ℤ pos (length name) in
      let user = malloc user_element usersz in
      let passwd = malloc passwd_element passsz in
      if user && passwd
      then parse_host malloc
          (record p {
            user = some (strlcpy usersz uri);
            passwd = some (strlcpy passsz (drop 1 from_colon));
          })
          (drop 1 rest)
      else (enomem, p)
]

-- The part behind the protocol.
unfoldable pub parse_rest : Malloc → Uri → List ℕ → ℤ × Uri
unfolding strstr parse_user parse_host
parse_rest malloc p uri = elim (strstr uri (codes "@")) [
  | none ↦ parse_host malloc p uri
  | some (before, rest) ↦ parse_user malloc p uri before rest
]

-- The protocol is looked for before "://", and is HTTP without one.
unfoldable pub parse_uri : Malloc → List ℕ → ℤ × Uri
unfolding strstr parse_proto parse_rest
parse_uri malloc [] = (ehttp_baduri, no_uri)
parse_uri malloc (c ∷ s) = elim (strstr (c ∷ s) (codes "://")) [
  | none ↦ parse_rest malloc (record no_uri { proto = proto_http }) (c ∷ s)
  | some (before, rest) ↦ elim (parse_proto (c ∷ s) (length before)) [
    | negsuc n ↦ (negsuc n, record no_uri { proto = negsuc n })
    | pos n ↦ parse_rest malloc (record no_uri { proto = pos n }) (drop 3 rest)
  ]
]
