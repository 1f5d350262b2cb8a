-- ===== src/Ctf/Client/Lobby/Sync.antt =====
-- When a message that waits for an answer ends.
use spectranet.Base.{
  ℕ, zero, suc, ◌+◌, ◌*◌, ◌≤◌, ◌<◌, ltb, ◌≡◌, refl, ap, subst, sym, ◌∙◌, arith, ℤ, pos, negsuc,
  ltb_ℤ, if◌then◌else◌, Bool, true, false, Option, none, some,
}
use spectranet.Ctf.Client.Lobby.{
  Poll, quiet, failed, arrived, tx_error, rx_error, timeout, poll_loop, retry_loop, send_sync_msg,
}

-- The polls that a run of them makes.
abbrev pub AllQuiet : (ℕ → Poll) → ℕ → ℕ → Type 0
AllQuiet net p zero = Unit {0}
AllQuiet net p (suc rounds) = (net p ≡ quiet) × AllQuiet net (suc p) rounds

-- A poll that is an error: of the poll, or of the `recvfrom` behind it.
abbrev pub Fails : Poll → Type 0
Fails quiet = 1 ≤ 0
Fails failed = Unit {0}
Fails (arrived (pos n)) = 1 ≤ 0
Fails (arrived (negsuc n)) = Unit {0}

-- What a run of polls gives: nothing, if all were quiet; or what the first that was not quiet came
-- to.
data Run (net : ℕ → Poll) (p rounds : ℕ) : Option ℤ → Type 0 where
  idle : AllQuiet net p rounds → Run net p rounds none
  broken :
      (k : ℕ)
      → k < rounds
      → AllQuiet net p k
      → Fails (net (p + k))
      → Run net p rounds (some rx_error)
  came :
      (n k : ℕ)
      → k < rounds
      → AllQuiet net p k
      → net (p + k) ≡ arrived (pos n)
      → Run net p rounds (some (pos n))

later-Run :
    (net : ℕ → Poll) (p rounds : ℕ) (o : Option ℤ)
    → net p ≡ quiet
    → Run net (suc p) rounds o
    → Run net p (suc rounds) o
later-Run net p rounds none e (idle q) = idle (e, q)
later-Run net p rounds (some r) e (broken k h q f) =
    let next : suc p + k ≡ p + suc k = omega arith in
    broken (suc k) (omega arith) (e, q) (subst (λ i. Fails (net i)) next f)
later-Run net p rounds (some r) e (came n k h q f) =
    came n (suc k) (omega arith) (e, q) (ap net (omega arith) ∙ f)

Fails-Run :
    (net : ℕ → Poll) (p rounds : ℕ) (q : Poll)
    → net p ≡ q
    → Fails q
    → Run net p (suc rounds) (some rx_error)
Fails-Run net p rounds q e f =
    let same : net (p + 0) ≡ q = ap net (omega arith) ∙ e in
    broken 0 (omega arith) tt (subst Fails (sym same) f)

first-Run :
    (net : ℕ → Poll) (p rounds : ℕ) (b : ℤ)
    → net p ≡ arrived b
    → Run net p (suc rounds) (some (if ltb_ℤ b (pos 0) then rx_error else b))
first-Run net p rounds (pos n) e =
    let whole : ltb (n + 0) 0 ≡ false = ground arith in
    rw whole (came n 0 (omega arith) tt (ap net (omega arith) ∙ e))
first-Run net p rounds (negsuc n) e =
    let less : ltb 0 (0 + suc n) ≡ true = ground arith in
    rw less (Fails-Run net p rounds (arrived (negsuc n)) e tt)

poll_step :
    (net : ℕ → Poll) (p rounds : ℕ) (q : Poll) (more : Option ℤ)
    → net p ≡ q
    → Run net (suc p) rounds more
    → Run net p (suc rounds) (elim q [
      | quiet ↦ more
      | failed ↦ some rx_error
      | arrived bytes ↦ some (if ltb_ℤ bytes (pos 0) then rx_error else bytes)
    ])
poll_step net p rounds quiet more e r = later-Run net p rounds more e r
poll_step net p rounds failed more e r = Fails-Run net p rounds failed e tt
poll_step net p rounds (arrived b) more e r = first-Run net p rounds b e

poll_loop-Run : (net : ℕ → Poll) (p rounds : ℕ) → Run net p rounds (poll_loop net p rounds)
unfolding poll_loop
poll_loop-Run net p zero = idle tt
poll_loop-Run net p (suc rounds) =
    poll_step net p rounds (net p) _ refl (poll_loop-Run net (suc p) rounds)

-- Each of `left` retries from number `k` on is sent, and all of its 512 polls are quiet.
abbrev pub Silent : (ℕ → Bool) → (ℕ → Poll) → ℕ → ℕ → Type 0
Silent sent net k zero = Unit {0}
Silent sent net k (suc left) =
    (sent k ≡ true) × AllQuiet net (512 * k) 512 × Silent sent net (suc k) left

-- How the retries end: all without an answer; or, behind `i` of them without an answer, with a send
-- that fails, or with the first poll that is not quiet, which is an error or an answer. The number
-- `j` is that of the sends.
pub data Ends (sent : ℕ → Bool) (net : ℕ → Poll) (k left : ℕ) : ℕ × ℤ → Type 0 where
  over : (j : ℕ) → j ≡ k + left → Silent sent net k left → Ends sent net k left (j, timeout)
  unsent :
      (i j : ℕ)
      → i < left
      → j ≡ suc (k + i)
      → Silent sent net k i
      → sent (k + i) ≡ false
      → Ends sent net k left (j, tx_error)
  lost :
      (i j m : ℕ)
      → i < left
      → j ≡ suc (k + i)
      → Silent sent net k i
      → sent (k + i) ≡ true
      → m < 512
      → AllQuiet net (512 * (k + i)) m
      → Fails (net (512 * (k + i) + m))
      → Ends sent net k left (j, rx_error)
  answered :
      (i j m n : ℕ)
      → i < left
      → j ≡ suc (k + i)
      → Silent sent net k i
      → sent (k + i) ≡ true
      → m < 512
      → AllQuiet net (512 * (k + i)) m
      → net (512 * (k + i) + m) ≡ arrived (pos n)
      → Ends sent net k left (j, pos n)

next_round : (k i : ℕ) → suc k + i ≡ k + suc i
next_round k i = omega arith

later_end :
    (sent : ℕ → Bool) (net : ℕ → Poll) (k left : ℕ) (r : ℕ × ℤ)
    → sent k ≡ true
    → AllQuiet net (512 * k) 512
    → Ends sent net (suc k) left r
    → Ends sent net k (suc left) r
later_end sent net k left _ s q (over j e t) = over j (omega arith) (s, q, t)
later_end sent net k left _ s q (unsent i j h e t f) =
    unsent (suc i) j (omega arith) (omega arith) (s, q, t)
      (subst (λ n. sent n ≡ false) (next_round k i) f)
later_end sent net k left _ s q (lost i j m h e t f l a g) =
    lost (suc i) j m (omega arith) (omega arith) (s, q, t)
      (subst (λ n. sent n ≡ true) (next_round k i) f) l
      (subst (λ n. AllQuiet net (512 * n) m) (next_round k i) a)
      (subst (λ n. Fails (net (512 * n + m))) (next_round k i) g)
later_end sent net k left _ s q (answered i j m n h e t f l a g) =
    answered (suc i) j m n (omega arith) (omega arith) (s, q, t)
      (subst (λ n. sent n ≡ true) (next_round k i) f) l
      (subst (λ n. AllQuiet net (512 * n) m) (next_round k i) a)
      (subst (λ r. net (512 * r + m) ≡ arrived (pos n)) (next_round k i) g)

retry_step :
    (sent : ℕ → Bool) (net : ℕ → Poll) (k left : ℕ) (b : Bool) (o : Option ℤ) (more : ℕ × ℤ)
    → sent k ≡ b
    → Run net (512 * k) 512 o
    → Ends sent net (suc k) left more
    → Ends sent net k
        (suc left)
        (if b then elim o [ none ↦ more | some r ↦ (suc k, r) ] else (suc k, tx_error))
retry_step sent net k left false o more e r m =
    unsent 0 (suc k) (omega arith) (omega arith) tt (ap sent (omega arith) ∙ e)
retry_step sent net k left true none more e (idle q) m = later_end sent net k left more e q m
retry_step sent net k left true (some b) more e (broken j h q f) m =
    lost 0 (suc k) j (omega arith) (omega arith) tt (ap sent (omega arith) ∙ e) h
      (subst (λ n. AllQuiet net (512 * n) j) (this_round k) q)
      (subst (λ n. Fails (net (512 * n + j))) (this_round k) f)
  where
    this_round : (k : ℕ) → k ≡ k + 0
    this_round k = omega arith
retry_step sent net k left true (some b) more e (came n j h q f) m =
    answered 0 (suc k) j n (omega arith) (omega arith) tt (ap sent (omega arith) ∙ e) h
      (subst (λ r. AllQuiet net (512 * r) j) (this_round k) q)
      (subst (λ r. net (512 * r + j) ≡ arrived (pos n)) (this_round k) f)
  where
    this_round : (k : ℕ) → k ≡ k + 0
    this_round k = omega arith

retry_loop-Ends :
    (sent : ℕ → Bool) (net : ℕ → Poll) (k left : ℕ)
    → Ends sent net k left (retry_loop sent net k left)
unfolding retry_loop
retry_loop-Ends sent net k zero = over k (omega arith) tt
retry_loop-Ends sent net k (suc left) =
    retry_step sent net k left (sent k) (poll_loop net (512 * k) 512) _ refl
      (poll_loop-Run net (512 * k) 512) (retry_loop-Ends sent net (suc k) left)

-- Whatever the network does, `sendSyncMsg` sends at most three times and ends: with a timeout, if
-- each of the three was sent and all of its 512 polls were quiet; and otherwise, behind as many
-- such rounds as there were, with an error of sending, if the next `sendto` failed, or, if it was
-- sent, with what its first poll that was not quiet came to: an error of receiving, or the size of
-- the answer.
pub send_sync_msg-Ends :
    (sent : ℕ → Bool) (net : ℕ → Poll) → Ends sent net 0 3 (send_sync_msg sent net)
unfolding send_sync_msg
send_sync_msg-Ends sent net = retry_loop-Ends sent net 0 3
