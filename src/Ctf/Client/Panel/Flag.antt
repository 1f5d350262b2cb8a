-- ===== src/Ctf/Client/Panel/Flag.antt =====
-- The flag indicator shows the direction that the server tells.
use spectranet.Base.{
  ℕ, ◌+◌, ◌*◌, ◌==◌, ◌<◌, ◌≡◌, refl, ap, sym, ◌∙◌, arith, ltb, if◌then◌else◌, Bool, false, ◌&&◌,
}
use spectranet.Ctf.Types.{MapXy, Object}
use spectranet.Ctf.Status.{flag_direction}
use spectranet.Ctf.Client.Panel.{
  Panel, poke, quieten_flag_indicator, sector_addr, flash_flag_indicator, flag_alert,
}

-- The byte of the cell in a row and a column of the indicator.
abbrev pub cell : ℕ → ℕ → ℕ
cell row col = 0x5a5d + 32 * row + col

-- A byte of the colours flashes.
abbrev pub flashes : ℕ → Bool
flashes b = ltb 127 b

sector : (row col : ℕ) → row < 3 → col < 3 → sector_addr (16 * row + col) ≡ cell row col
unfolding sector_addr
sector row col h k = ground arith

three :
    (b c d e : Bool)
    → (row : ℕ) × (col : ℕ) × ((if b then 0 else if c then 32 else 16)
          + (if d then 0 else if e then 2 else 1)
        ≡ 16 * row + col)
      × (row < 3)
      × (col < 3)
three b c d e = (
  (if b then 0 else if c then 2 else 1),
  (if d then 0 else if e then 2 else 1),
  ground arith,
  ground arith,
  ground arith,
)

-- The row and the column that a direction stands for.
directions :
    (loc : MapXy) (tank : Object)
    → (row : ℕ) × (col : ℕ) × (flag_direction loc tank ≡ 16 * row + col) × (row < 3) × (col < 3)
unfolding flag_direction
directions loc tank = three _ _ _ _

quiet :
    (p : Panel) (row col : ℕ)
    → row < 3
    → col < 3
    → (quieten_flag_indicator p).memory (cell row col) ≡ p.flagindbg
unfolding quieten_flag_indicator poke
quiet p row col h k = ground arith

bright :
    (b : Bool) (x y : ℕ)
    → x < 128
    → y ≡ x
    → flashes (if b then (if ltb x 128 then x + 128 else x) else y) ≡ b
bright b x y h e = ground arith

same_cell :
    (row col r c : ℕ)
    → col < 3
    → c < 3
    → (cell r c == cell row col) ≡ ((16 * r + c) == (16 * row + col))
same_cell row col r c h k = ground arith

flash-cell :
    (q : Panel) (row col r c : ℕ)
    → q.flagindbg < 128
    → q.memory (cell r c) ≡ q.flagindbg
    → row < 3
    → col < 3
    → c < 3
    → flashes ((flash_flag_indicator (16 * row + col) q).memory (cell r c))
      ≡ ((16 * r + c) == (16 * row + col))
unfolding flash_flag_indicator poke
flash-cell q row col r c dark still hr hc k =
    ap
      (λ a. flashes (
        if cell r c == a
        then (if ltb q.flagindbg 128 then q.flagindbg + 128 else q.flagindbg)
        else q.memory (cell r c)))
      (sector row col hr hc)
    ∙ bright (cell r c == cell row col) q.flagindbg (q.memory (cell r c)) dark still
    ∙ same_cell row col r c hc k

alert_lem :
    (p : Panel) (s : ℕ)
    → (s == 0xFF) ≡ false
    → flag_alert s p ≡ flash_flag_indicator s (quieten_flag_indicator p)
unfolding flag_alert
alert_lem p s e = rw e refl

quiet_background : (p : Panel) → (quieten_flag_indicator p).flagindbg ≡ p.flagindbg
unfolding quieten_flag_indicator poke
quiet_background p = refl

alerted :
    (p : Panel) (row col r c : ℕ)
    → p.flagindbg < 128
    → row < 3
    → col < 3
    → r < 3
    → c < 3
    → flashes ((flag_alert (16 * row + col) p).memory (cell r c))
      ≡ ((16 * r + c) == (16 * row + col))
alerted p row col r c dark hr hc h k =
    let back = quiet_background p in
    ap (λ q. flashes (q.memory (cell r c))) (alert_lem p (16 * row + col) (ground arith))
    ∙ flash-cell (quieten_flag_indicator p) row col r c (omega arith) (quiet p r c h k ∙ sym back)
        hr hc k

-- When the server tells a player the way to a flag, exactly one of the nine cells of the indicator
-- flashes, the one in the row and the column that are the digits of the direction, and when it tells
-- that there is no flag to look for, none does, if the colour of the indicator itself does not flash.
pub flag_alert-flag_direction :
    (p : Panel) (loc : MapXy) (tank : Object)
    → p.flagindbg < 128
    → ((r c : ℕ) × (flag_direction loc tank ≡ 16 * r + c)
        × (r < 3)
        × (c < 3)
        × ((row col : ℕ)
            → row < 3
            → col < 3
            → flashes ((flag_alert (flag_direction loc tank) p).memory (cell row col))
              ≡ ((row == r) && (col == c))))
      × ((row col : ℕ)
          → row < 3
          → col < 3
          → flashes ((flag_alert 0xFF p).memory (cell row col)) ≡ false)
unfolding flag_alert
flag_alert-flag_direction p loc tank dark =
    let (r, c, e, hr, hc) = directions loc tank in
    (
      (
        r,
        c,
        e,
        hr,
        hc,
        λ row col h k. rw e (alerted p r c row col dark hr hc h k ∙ digits row col r c k hc),
      ),
      λ row col h k. ap flashes (quiet p row col h k) ∙ (let low = dark in ground arith),
    )
  where
    digits :
        (row col r c : ℕ)
        → col < 3
        → c < 3
        → ((16 * row + col) == (16 * r + c)) ≡ ((row == r) && (col == c))
    digits row col r c k h = ground arith
