-- ===== src/Http/Data.antt =====
-- Reading from the connection: htpoll, htrecv and readData of z88dk/libhttp.
pub mod Front
pub mod Loss
pub mod Full
use spectranet.Base.{
  ℕ, zero, suc, ◌+◌, ◌-◌, ℤ, pos, negsuc, Bool, true, false, Option, none, some, List, [], ◌∷◌,
  ◌++◌, length, take, drop, if◌then◌else◌, ltb, ◌==◌,
}

-- What `poll_fd` reports, and the data that is there then: `quiet` is its 0. Where the data is there,
-- `recv` hands over what fits, and the rest stays.
pub data Arrival : Type 0 where
  arrives : List ℕ → Arrival
  hangs_up invalid quiet : Arrival

-- The polls of `htpoll`, one for each 20 of the timeout: the first that is not quiet, and what comes
-- after it.
unfoldable pub htpoll : ℕ → List Arrival → Arrival × List Arrival
htpoll zero l = (quiet, l)
htpoll (suc rounds) [] = (quiet, [])
htpoll (suc rounds) (quiet ∷ l) = htpoll rounds l
htpoll (suc rounds) (arrives bs ∷ l) = (arrives bs, l)
htpoll (suc rounds) (hangs_up ∷ l) = (hangs_up, l)
htpoll (suc rounds) (invalid ∷ l) = (invalid, l)

-- `TIMEOUT` of 5000 in steps of 20.
abbrev pub poll_rounds : ℕ
poll_rounds = 250

-- What is left of the data that arrived; a connection that was closed stays so.
abbrev pub left_over : List ℕ → List Arrival → List Arrival
left_over [] l = l
left_over (b ∷ bs) l = arrives (b ∷ bs) ∷ l

-- What `htrecv` makes of a poll: the result, the bytes, and what is still to come.
unfoldable pub received : ℕ → Arrival × List Arrival → ℤ × List ℕ × List Arrival
received size (quiet, l) = (negsuc 16, [], l)
received size (hangs_up, l) = (negsuc 15, [], l)
received size (invalid, l) = (negsuc 7, [], l)
received size (arrives bs, l) =
    (pos (length (take size bs)), take size bs, left_over (drop size bs) l)

unfoldable pub htrecv : ℕ → List Arrival → ℤ × List ℕ × List Arrival
unfolding htpoll received
htrecv size l = received size (htpoll poll_rounds l)

-- The globals: `dataleft`, and the text from `bufptr` on, `bufleft` bytes of it. The length that a
-- server names is taken as it should be, not negative.
pub record Reader : Type 0 where
  pub dataleft : ℕ
  pub buffer : List ℕ
  pub net : List Arrival

-- The end of `readData`: `got` is in the caller's buffer already. A result below 1 is passed on.
unfoldable pub take_in : List ℕ → Reader → ℤ × List ℕ × List Arrival → ℤ × List ℕ × Reader
take_in got r (negsuc n, bs, l) = (negsuc n, got ++ bs, record r { net = l })
take_in got r (pos zero, bs, l) = (pos 0, got ++ bs, record r { net = l })
take_in got r (pos (suc n), bs, l) =
    (pos (suc n + length got), got ++ bs, record r { dataleft = r.dataleft - suc n; net = l })

-- The part of `readData` behind the header buffer; the caller's buffer has room for `bufsz` more.
unfoldable pub read_net : ℕ → List ℕ → Reader → ℤ × List ℕ × Reader
unfolding htrecv take_in
read_net bufsz got r =
    if ltb r.dataleft 1
    then (pos (length got), got, r)
    else take_in got r (htrecv (if ltb r.dataleft bufsz then r.dataleft else bufsz) r.net)

-- `readData`: the result, what was written to the caller's buffer, and the new globals.
unfoldable pub read_data : ℕ → Reader → ℤ × List ℕ × Reader
unfolding read_net
read_data bufsz r =
    let bytestoget = if ltb r.dataleft (length r.buffer) then r.dataleft else length r.buffer in
    if length r.buffer == 0
    then read_net bufsz [] r
    else if ltb bufsz bytestoget
    then (
      pos bufsz,
      take bufsz r.buffer,
      record r { dataleft = r.dataleft - bufsz; buffer = drop bufsz r.buffer },
    )
    else read_net (bufsz - bytestoget) (take bytestoget r.buffer)
        (record r { dataleft = r.dataleft - bytestoget; buffer = [] })
