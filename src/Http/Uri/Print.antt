-- ===== src/Http/Uri/Print.antt =====
-- Addresses written out, and what `parse_uri` makes of them.
use spectranet.Base.{
  ℕ, suc, ◌+◌, ◌-ℤ◌, ℤ, pos, ◌≡◌, refl, ap, ◌∙◌, sym, true, some, none, List, [], ◌∷◌, ◌++◌, length,
  take, codes, arith, append_assoc, append-nil, length-append, strstr, strlcpy, starts_with,
  same_start, Lacks, Lacks-append, strstr-append, strstr-none, take-append_length,
}
use spectranet.Http.Uri.{
  Uri, Malloc, Element, passwd_element, no_uri, proto_http, parse_uri, parse_rest, parse_user,
  parse_host, parse_location, parse_proto,
}

-- The parts of an address, the location with its slash.
abbrev pub with_slash : List ℕ → List ℕ
with_slash path = b'/' ∷ path

abbrev pub plain : List ℕ → List ℕ → List ℕ
plain host path = codes "http://" ++ (host ++ with_slash path)

abbrev pub with_user : List ℕ → List ℕ → List ℕ → List ℕ → List ℕ
with_user user passwd host path =
    codes "http://" ++ (user ++ (b':' ∷ (passwd ++ (b'@' ∷ (host ++ with_slash path)))))

-- There is memory for every element.
abbrev pub Roomy : Malloc → Type 0
Roomy malloc = (e : Element) (n : ℤ) → malloc e n ≡ true

strlcpy_prefix : (a b : List ℕ) → strlcpy (pos (length a + 1)) (a ++ b) ≡ a
unfolding strlcpy
strlcpy_prefix a b = ap (λ n. take n (a ++ b)) (omega arith) ∙ take-append_length a b

strlcpy_whole : (a : List ℕ) → strlcpy (pos (length a + 1)) a ≡ a
strlcpy_whole a = ap (strlcpy (pos (length a + 1))) (sym (append-nil a)) ∙ strlcpy_prefix a []

parse_location_lem :
    (malloc : Malloc) (p : Uri) (path : List ℕ)
    → Roomy malloc
    → parse_location malloc p (with_slash path)
      ≡ (pos 0, record p { location = some (with_slash path) })
unfolding parse_location
parse_location_lem malloc p path room =
    rw (parse_location, room, strlcpy_whole (with_slash path)) refl

parse_host_lem :
    (malloc : Malloc) (p : Uri) (c : ℕ) (host path : List ℕ)
    → Roomy malloc
    → Lacks b'/' (c ∷ host)
    → parse_host malloc p ((c ∷ host) ++ with_slash path)
      ≡ (pos 0, record p { host = some (c ∷ host); location = some (with_slash path) })
unfolding parse_host
parse_host_lem malloc p c host path room lacks =
    rw
      (
        parse_host,
        strstr-append (c ∷ host) (with_slash path) b'/' [] lacks refl,
        room,
        strlcpy_prefix (c ∷ host) (with_slash path),
        parse_location_lem malloc (record p { host = some (c ∷ host) }) path room,
      )
      refl

parse_http :
    (malloc : Malloc) (s : List ℕ)
    → parse_uri malloc (codes "http://" ++ s)
      ≡ parse_rest malloc (record no_uri { proto = proto_http }) s
unfolding parse_uri strstr starts_with parse_proto same_start
parse_http malloc s = refl

-- An address without a user is taken apart into its host and its location, given that there is
-- memory, the host is not empty and has no slash, and there is no '@'.
pub parse_uri-plain :
    (malloc : Malloc) (c : ℕ) (host path : List ℕ)
    → Roomy malloc
    → Lacks b'/' (c ∷ host)
    → Lacks b'@' (c ∷ host)
    → Lacks b'@' path
    → parse_uri malloc (plain (c ∷ host) path) ≡ (
      pos 0,
      record no_uri {
        proto = proto_http;
        host = some (c ∷ host);
        location = some (with_slash path);
      },
    )
unfolding parse_rest
parse_uri-plain malloc c host path room slash at_host at_path =
    rw
      (
        parse_http malloc ((c ∷ host) ++ with_slash path),
        parse_rest,
        strstr-none ((c ∷ host) ++ with_slash path) b'@' []
            (Lacks-append b'@' (c ∷ host) (with_slash path) at_host (refl, at_path)),
        parse_host_lem malloc (record no_uri { proto = proto_http }) c host path room slash,
      )
      refl

minus_lem : (a b : ℕ) → pos (a + suc b) -ℤ pos a ≡ pos (b + 1)
unfolding ◌-ℤ◌
minus_lem a b = ground arith

passwd_size :
    (user passwd : List ℕ)
    → pos (length (user ++ (b':' ∷ passwd))) -ℤ pos (length user) ≡ pos (length passwd + 1)
passwd_size user passwd =
    rw (length-append user (b':' ∷ passwd)) (minus_lem (length user) (length passwd))

parse_user_lem :
    (malloc : Malloc) (p : Uri) (user passwd rest : List ℕ)
    → Roomy malloc
    → Lacks b':' user
    → parse_user malloc p
        (user ++ (b':' ∷ (passwd ++ (b'@' ∷ rest))))
        (user ++ (b':' ∷ passwd))
        (b'@' ∷ rest)
      ≡ parse_host malloc (record p { user = some user; passwd = some passwd }) rest
unfolding parse_user
parse_user_lem malloc p user passwd rest room colon =
    rw
      (
        parse_user,
        strstr-append user (b':' ∷ (passwd ++ (b'@' ∷ rest))) b':' [] colon refl,
        room,
        passwd_size user passwd,
        strlcpy_prefix user (b':' ∷ (passwd ++ (b'@' ∷ rest))),
        strlcpy_prefix passwd (b'@' ∷ rest),
      )
      (rw (room passwd_element (pos (length passwd + 1))) refl)

at_lem :
    (user passwd rest : List ℕ)
    → Lacks b'@' user
    → Lacks b'@' passwd
    → strstr (user ++ (b':' ∷ (passwd ++ (b'@' ∷ rest)))) (codes "@")
      ≡ some (user ++ (b':' ∷ passwd), b'@' ∷ rest)
unfolding starts_with
at_lem user passwd rest at_user at_passwd =
    ap (λ s. strstr s (codes "@")) (sym (append_assoc user (b':' ∷ passwd) (b'@' ∷ rest)))
    ∙ strstr-append (user ++ (b':' ∷ passwd)) (b'@' ∷ rest) b'@' []
        (Lacks-append b'@' user (b':' ∷ passwd) at_user (refl, at_passwd)) refl

-- An address with a user and a password is taken apart into these, its host and its location, given
-- that there is memory, the host is not empty and has no slash, the user has neither ':' nor '@', and
-- the password no '@'.
pub parse_uri-with_user :
    (malloc : Malloc) (user passwd : List ℕ) (c : ℕ) (host path : List ℕ)
    → Roomy malloc
    → Lacks b':' user
    → Lacks b'@' user
    → Lacks b'@' passwd
    → Lacks b'/' (c ∷ host)
    → parse_uri malloc (with_user user passwd (c ∷ host) path) ≡ (
      pos 0,
      record no_uri {
        proto = proto_http;
        host = some (c ∷ host);
        location = some (with_slash path);
        user = some user;
        passwd = some passwd;
      },
    )
unfolding parse_rest
parse_uri-with_user malloc user passwd c host path room colon at_user at_passwd slash =
    let rest = (c ∷ host) ++ with_slash path in
    rw
      (
        parse_http malloc (user ++ (b':' ∷ (passwd ++ (b'@' ∷ rest)))),
        parse_rest,
        at_lem user passwd rest at_user at_passwd,
        parse_user_lem malloc (record no_uri { proto = proto_http }) user passwd rest room colon,
        parse_host_lem malloc
            (record no_uri { proto = proto_http; user = some user; passwd = some passwd }) c host
            path room slash,
      )
      refl

-- A text that is not empty and has none of "://", '@' and '/', as a host name by itself, is taken
-- whole as the location, and there is no host, given that there is memory.
pub parse_uri_bare :
    (malloc : Malloc) (c : ℕ) (s : List ℕ)
    → Roomy malloc
    → strstr (c ∷ s) (codes "://") ≡ none
    → Lacks b'@' (c ∷ s)
    → Lacks b'/' (c ∷ s)
    → parse_uri malloc (c ∷ s)
      ≡ (pos 0, record no_uri { proto = proto_http; location = some (c ∷ s) })
unfolding parse_uri
parse_uri_bare malloc c s room no_proto no_at no_slash =
    rw
      (
        parse_uri,
        no_proto,
        parse_rest,
        strstr-none (c ∷ s) b'@' [] no_at,
        parse_host,
        strstr-none (c ∷ s) b'/' [] no_slash,
        parse_location,
        room,
        strlcpy_whole (c ∷ s),
      )
      refl
