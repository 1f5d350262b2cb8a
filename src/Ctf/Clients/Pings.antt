-- ===== src/Ctf/Clients/Pings.antt =====
-- A client that falls silent.
use spectranet.Base.{
  ℕ, zero, suc, ◌+◌, ◌*◌, ◌-◌, ◌≤◌, ◌≡◌, arith, Option, none, some, ltb, leb, if◌then◌else◌, Bool,
  true, false, Bool-cases, ◌⊎◌, inl, inr,
}
use spectranet.Ctf.Types.{Ping, Player}
use spectranet.Ctf.Clients.{PingStep, lost, due, wait, ping_step, pinged, fresh_ping}

-- The ping data of a silent client after a frame; `none` once it was found lost.
abbrev pub advance : PingStep → Option Ping
advance lost = none
advance (due d) = some d
advance (wait d) = some d

-- After a number of frames in which `doPing` looks at it.
unfoldable pub silent : ℕ → Ping → Option Ping
silent zero d = some d
silent (suc n) d = elim (advance (ping_step d)) [ none ↦ none | some d' ↦ silent n d' ]

-- A frame of `doPing` for a player, and a number of them.
abbrev frame : Player → Ping → Option Ping
frame p d = if pinged p then advance (ping_step d) else some d

unfoldable pub kept : Player → ℕ → Ping → Option Ping
kept p zero d = some d
kept p (suc n) d = elim (frame p d) [ none ↦ none | some d' ↦ kept p n d' ]

-- The frames that are left until the client is found lost.
unfoldable pub patience : Ping → ℕ
patience d = if ltb 4 d.rspmiss then 0 else (4 - d.rspmiss) * 62 + (62 - d.frames)

abbrev pub is_some : Option Ping → Bool
is_some none = false
is_some (some d) = true

ping_step_lem :
    (d : Ping)
    → d.frames ≤ 61
    → (ping_step d ≡ lost) × (patience d ≡ 0)
      ⊎ (d' : Ping) × (advance (ping_step d) ≡ some d')
        × (patience d' + 1 ≡ patience d)
        × (d'.frames ≤ 61)
unfolding patience ping_step
ping_step_lem d h = elim (Bool-cases (ltb 4 d.rspmiss)) [
  | inl many ↦ inl (rw many, rw many)
  | inr few ↦ elim (Bool-cases (ltb 60 d.frames)) [
    | inl ping ↦
        inr (
          record { frames = 0; rspmiss = d.rspmiss + 1 },
          rw (few, ping),
          ground arith,
          omega arith,
        )
    | inr early ↦
        inr (record d { frames = d.frames + 1 }, rw (few, early), ground arith, ground arith)
  ]
]

patience_lem : (n : ℕ) (d : Ping) → d.frames ≤ 61 → is_some (silent n d) ≡ leb n (patience d)
unfolding silent
patience_lem zero d h = ground arith
patience_lem (suc n) d h = elim (ping_step_lem d h) [
  | inl (gone, none_left) ↦ rw (gone, none_left, silent) (ground arith)
  | inr (d', more, one_less, h') ↦ rw (more, silent) (ground (arith, patience_lem n d' h'))
]

-- A client that was just heard of is removed after 311 frames in which `doPing` looks at it, if it
-- stays silent, and not before.
pub silent_fresh : (n : ℕ) → is_some (silent n fresh_ping) ≡ leb n 310
unfolding patience
silent_fresh n = patience_lem n fresh_ping (omega arith)
