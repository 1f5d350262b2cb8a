-- ===== src/Http/Data/Full.antt =====
-- What `read_data` loses.
use spectranet.Base.{
  ℕ, ◌-◌, ◌<◌, ◌≡◌, refl, ◌∙◌, arith, pos, false, List, [], ◌∷◌, length, append-nil, ltb, ◌==◌,
}
use spectranet.Http.Data.{
  Arrival, arrives, Reader, htpoll, htrecv, received, take_in, read_net, read_data, left_over,
}
use spectranet.Http.Data.Front.{take_all}
use spectranet.Http.Data.Loss.{asked, read_net_some, from_buffer, read_data_join}

read_net_full :
    (d : ℕ) (got bs : List ℕ) (l : List Arrival)
    → 0 < d
    → read_net 0 got (record { dataleft = d; buffer = []; net = arrives bs ∷ l })
      ≡ (pos 0, got, record { dataleft = d; buffer = []; net = left_over bs l })
unfolding take_in htrecv htpoll received
read_net_full d got bs l some_d =
    let more : ltb d 1 ≡ false = ground arith in
    let room : asked d 0 ≡ 0 = ground arith in
    read_net_some 0 got (record { dataleft = d; buffer = []; net = arrives bs ∷ l }) more
    ∙ rw (room, append-nil got) refl

-- Bytes are lost: when what the header's buffer holds fills the caller's buffer to its end, more of
-- the body is due and data is there, `read_data` asks for 0 bytes more and returns 0, as at the end
-- of the body, although it has filled the caller's buffer, and keeps none of those bytes.
pub read_data_full :
    (d b : ℕ) (bs arrived : List ℕ) (l : List Arrival)
    → length (b ∷ bs) < d
    → read_data
        (length (b ∷ bs))
        (record { dataleft = d; buffer = b ∷ bs; net = arrives arrived ∷ l })
      ≡ (
        pos 0,
        b ∷ bs,
        record { dataleft = d - length (b ∷ bs); buffer = []; net = left_over arrived l },
      )
read_data_full d b bs arrived l h =
    let r : Reader = record { dataleft = d; buffer = b ∷ bs; net = arrives arrived ∷ l } in
    let some_left : (length (b ∷ bs) == 0) ≡ false = ground arith in
    let k : from_buffer d (b ∷ bs) ≡ length (b ∷ bs) = ground arith in
    let join : ltb (length (b ∷ bs)) (from_buffer d (b ∷ bs)) ≡ false = ground arith in
    let none_left : length (b ∷ bs) - length (b ∷ bs) ≡ 0 = omega arith in
    read_data_join (length (b ∷ bs)) r some_left join
    ∙ rw (k, none_left, take_all (b ∷ bs))
        (read_net_full (d - length (b ∷ bs)) (b ∷ bs) arrived l (omega arith))
