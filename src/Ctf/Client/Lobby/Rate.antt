-- ===== src/Ctf/Client/Lobby/Rate.antt =====
-- How often the lobby sends what a player asks for.
use spectranet.Base.{
  ℕ, suc, ◌+◌, ◌-◌, ◌*◌, ◌==◌, ◌≤◌, arith, Bool-cases, inl, inr, Option, none, some, List, [], ◌∷◌,
  length,
}
use spectranet.Ctf.Client.Lobby.{lock, key_msg, get_matchmake_input}

-- What a run of calls sends, from the lockout before it and the key at each call.
unfoldable pub lobby_run : ℕ → List (Option ℕ) → List (Option (List ℕ))
unfolding get_matchmake_input
lobby_run lockout [] = []
lobby_run lockout (k ∷ ks) =
    (get_matchmake_input k lockout).1 ∷ lobby_run (get_matchmake_input k lockout).0 ks

unfoldable pub sent_count : List (Option (List ℕ)) → ℕ
sent_count [] = 0
sent_count (none ∷ ms) = sent_count ms
sent_count (some m ∷ ms) = suc (sent_count ms)

-- A call that sends nothing takes one off the lockout at most.
idle_step : (c n l k : ℕ) → l ≤ k + 1 → 512 * c + k ≤ n + 512 → 512 * c + l ≤ suc n + 512
idle_step c n l k h e = omega arith

abbrev Bounded : ℕ → List (Option ℕ) → Type 0
Bounded l ks = 512 * sent_count (lobby_run l ks) + l ≤ length ks + 512

-- A call with the lockout over.
open_step :
    (o : Option (List ℕ)) (l : ℕ) (ks : List (Option ℕ))
    → l ≤ 1
    → ((m : ℕ) → m ≤ 512 → Bounded m ks)
    → 512 * sent_count ((lock 0 o).1 ∷ lobby_run (lock 0 o).0 ks) + l ≤ suc (length ks) + 512
unfolding sent_count
open_step none l ks h rest =
    idle_step (sent_count (lobby_run 0 ks)) (length ks) l 0 (omega arith) (rest 0 (omega arith))
open_step (some m) l ks h rest = let later = rest 512 (omega arith) in omega arith

rate : (l : ℕ) (ks : List (Option ℕ)) → l ≤ 512 → Bounded l ks
unfolding lobby_run sent_count get_matchmake_input
rate l [] h = omega arith
rate l (none ∷ ks) h =
    idle_step (sent_count (lobby_run (l - 1) ks)) (length ks) l (l - 1) (omega arith)
      (rate (l - 1) ks (omega arith))
rate l (some kb ∷ ks) h = elim (Bool-cases ((l - 1) == 0)) [
  | inl e ↦ rw e (open_step (key_msg kb) l ks (ground arith) (λ m k. rate m ks k))
  | inr e ↦ rw e (
      idle_step (sent_count (lobby_run (l - 1) ks)) (length ks) l (l - 1) (omega arith)
        (rate (l - 1) ks (omega arith)))
]

-- Whatever keys the player holds down: from the start on, the lobby sends at most one message for
-- 512 calls of `getMatchmakeInput`.
pub sent_count-lobby_run : (ks : List (Option ℕ)) → 512 * sent_count (lobby_run 512 ks) ≤ length ks
sent_count-lobby_run ks = let all = rate 512 ks (omega arith) in omega arith
