-- ===== src/Spectator/Whole.antt =====
-- A datagram of the server, from the messages that are queued to what the spectator draws.
use spectranet.Base.{
  ℕ, suc, ◌+◌, ◌<◌, ◌≤◌, pos, negsuc, mod_ℤ, subst, sym, arith, ◌≡◌, refl, ap, ℤ, ◌==◌,
  if◌then◌else◌, Bool, true, false, Option, some, List, [], ◌∷◌, length, get_elem?, Gives,
  Gives-bind, Gives-at, ◌∙◌, Whenever, Whenever-bind, Whenever-after, Gives-Whenever,
}
use spectranet.Ctf.Types.{Object, Player}
use spectranet.Ctf.Physics.Motion.{IsDir}
use spectranet.Ctf.World.{MsgBuf}
use spectranet.Ctf.Buffer.{empty_buf, player_id_msg}
use spectranet.Ctf.Status.{spectator_score_msg}
use spectranet.Ctf.View.{sprite_msg16, type_id}
use spectranet.Ctf.Sound.{All, All-append}
use spectranet.Ctf.Msg
use spectranet.Ctf.Client.Wire.{queue_all}
use spectranet.Spectator.Reader.{
  Deed, deeds_of, act_on, manage_sprite, handle_player_id, show_scores, show_winner, add_screen_msg,
  pong, blit_background, done_drawing,
}
use spectranet.Spectator.Wire.{
  FromServer, sprite, removed, status, ping, player_id, scores, game_end, get_message-queue_all,
}
use spectranet.Spectator.Draw.{SpriteMsg16, Shape, sprite_of, owner_name}
use spectranet.Spectator.Draw
use spectranet.Spectator.Scores.{ScoreSurface, Board, score_entries}
use spectranet.Spectator.Scores
use spectranet.Spectator.Safe.{
  Fits, IsAnim, IsAnimOf, manage_sprite-IsAnim, handle_player_id-IsAnim, init_anim-IsAnim,
}
use spectranet.Spectator.Board.{show_scores-on_board}
use spectranet.Spectator.Screen.{
  Screen, Surface, init_screen, end_frame, perform, perform_all, receive,
}

-- The counters are in range, and the board has an entry for each slot.
pub record IsScreen (s : Screen) : Type 0 where
  pub anim : IsAnim s.anim
  pub entries : length s.board.scores ≡ 16

abbrev pub IsScreenOf : Screen × List Shape → Type 0
IsScreenOf (s, l) = IsScreen s

length-score_entries :
    (players : List (List ℕ)) (msg : List ℕ) (i : ℕ) (ss : List ScoreSurface)
    → Whenever (λ es. length es ≡ length ss) (score_entries players msg i ss)
unfolding score_entries
length-score_entries players msg i [] = refl
length-score_entries players msg i (s ∷ ss) =
    let Long : List ScoreSurface → Type 0 = λ es. length es ≡ suc (length ss) in
    Whenever-bind Long (get_elem? msg (2 + i)) _ (λ goals.
      Whenever-bind Long (get_elem? msg (34 + i)) _ (λ team.
        Whenever-bind Long (owner_name players i) _ (λ name.
          Whenever-after (λ es. length es ≡ length ss) Long (score_entries players msg (suc i) ss) _
            (length-score_entries players msg (suc i) ss) (λ es h. ap suc h))))

length-show_scores :
    (players : List (List ℕ)) (msg : List ℕ) (b : Board)
    → Whenever (λ after. length after.scores ≡ length b.scores) (Scores.show_scores players msg b)
unfolding Scores.show_scores
length-show_scores players msg b =
    let Long : Board → Type 0 = λ after. length after.scores ≡ length b.scores in
    Whenever-bind Long (get_elem? msg 0) _ (λ blue. Whenever-bind Long (get_elem? msg 1) _ (λ red.
      Whenever-after (λ es. length es ≡ length b.scores) Long (score_entries players msg 0 b.scores)
        _ (length-score_entries players msg 0 b.scores) (λ es h. h)))

-- A deed that can be done on every screen, and leaves one.
abbrev IsSafe : Surface → Deed → Type 0
IsSafe d e = (s : Screen) → IsScreen s → Gives IsScreenOf (perform d e s)

perform_all-IsScreen :
    (d : Surface) (es : List Deed) (s : Screen)
    → All (IsSafe d) es
    → IsScreen s
    → Gives IsScreenOf (perform_all d es s)
unfolding perform_all
perform_all-IsScreen d [] s u h = h
perform_all-IsScreen d (e ∷ es) s (safe, more) h =
    Gives-bind IsScreenOf IsScreenOf (perform d e s) _ (safe s h) (λ (t, drawn) k.
      Gives-bind IsScreenOf IsScreenOf (perform_all d es t) _ (perform_all-IsScreen d es t more k)
        (λ (u, rest) l. l))

end_frame-IsScreen : (d : Surface) (s : Screen) → IsScreen s → IsScreenOf (end_frame d s)
unfolding end_frame
end_frame-IsScreen d s h =
    let a = h.anim in
    record {
      anim = record { foton = a.foton; colour = a.colour; xplode = a.xplode; names = a.names };
      entries = h.entries;
    }

perform-sprite :
    (d : Surface) (msg : List ℕ) (m : SpriteMsg16) (s : Screen)
    → sprite_of msg ≡ some m
    → Fits m
    → IsScreen s
    → Gives IsScreenOf (perform d (manage_sprite msg) s)
unfolding perform
perform-sprite d msg m s e fits h = Gives-at IsScreenOf (sprite_of msg) _ e (
    Gives-bind IsAnimOf IsScreenOf (Draw.manage_sprite m s.anim) _
      (manage_sprite-IsAnim m s.anim fits h.anim)
      (λ (a, drawn) k. record { anim = k; entries = h.entries }))

perform-player_id :
    (d : Surface) (i : ℕ) (name : List ℕ) (s : Screen)
    → i < 16
    → IsScreen s
    → Gives IsScreenOf (perform d (handle_player_id (i ∷ name)) s)
unfolding perform
perform-player_id d i name s low h =
    Gives-bind IsAnim IsScreenOf (Draw.handle_player_id (i ∷ name) s.anim) _
      (handle_player_id-IsAnim i name s.anim low h.anim)
      (λ a k. record { anim = k; entries = h.entries })

perform-scores :
    (d : Surface) (junk : ℕ) (blue red : ℤ) (ps : List (Option Player)) (s : Screen)
    → length ps ≡ 16
    → IsScreen s
    → Gives IsScreenOf (perform d (show_scores (spectator_score_msg junk blue red ps)) s)
unfolding perform
perform-scores d junk blue red ps s long h =
    let msg = spectator_score_msg junk blue red ps in
    let names = s.anim.players in
    let given = show_scores-on_board junk blue red ps names s.board long h.anim.names h.entries in
    let entries = h.entries in
    let Long : Board → Type 0 = λ b. length b.scores ≡ length s.board.scores in
    Gives-bind Long IsScreenOf (Scores.show_scores names msg s.board) _
      (Gives-Whenever _ Long (Scores.show_scores names msg s.board) given
        (length-show_scores names msg s.board))
      (λ b k. record { anim = h.anim; entries = k ∙ entries })

perform-message :
    (d : Surface) (t : List ℕ) (s : Screen)
    → IsScreen s
    → Gives IsScreenOf (perform d (add_screen_msg t) s)
unfolding perform
perform-message d t s h = record { anim = h.anim; entries = h.entries }

perform-pong : (d : Surface) (s : Screen) → IsScreen s → Gives IsScreenOf (perform d pong s)
unfolding perform
perform-pong d s h = h

perform-winner :
    (d : Surface) (reason winner blue red : ℕ) (s : Screen)
    → IsScreen s
    → Gives IsScreenOf (perform d (show_winner (reason ∷ winner ∷ blue ∷ red ∷ [])) s)
unfolding perform Scores.show_winner
perform-winner d reason winner blue red s h = record { anim = h.anim; entries = h.entries }

perform-background :
    (d : Surface) (s : Screen) → IsScreen s → Gives IsScreenOf (perform d blit_background s)
unfolding perform
perform-background d s h = h

perform-done : (d : Surface) (s : Screen) → IsScreen s → Gives IsScreenOf (perform d done_drawing s)
unfolding perform
perform-done d s h = end_frame-IsScreen d s h

-- A tank of the server is in the tables of the spectator.
low_dir : (a : ℤ) → IsDir a → mod_ℤ a 256 < 16
low_dir (pos n) h = ground arith
low_dir (negsuc n) h = let bad : 1 ≤ 0 = omega arith in elim bad [ ]

tank-Fits :
    (obj : Object)
    → (type_id obj.type ≡ 0 → (i : ℕ) × (obj.owner ≡ pos i) × (i < 16) × IsDir obj.commanded.dir)
    → type_id obj.type ≡ 0
    → (mod_ℤ obj.owner 256 < 16) × (mod_ℤ obj.commanded.dir 256 < 16)
tank-Fits obj tank e =
    let (i, owner, low, dir) = tank e in
    (subst (λ o. mod_ℤ o 256 < 16) (sym owner) (low_slot i low), low_dir obj.commanded.dir dir)
  where
    low_slot : (i : ℕ) → i < 16 → mod_ℤ (pos i) 256 < 16
    low_slot i h = ground arith

-- The messages of the server.
deeds_of-IsSafe : (d : Surface) {m : ℕ × List ℕ} → FromServer m → All (IsSafe d) (deeds_of m)
unfolding deeds_of sprite_msg16 sprite_of player_id_msg
deeds_of-IsSafe d (sprite junk obj objid owner tank) =
    (λ s h. perform-sprite d _ _ s refl (tank-Fits obj tank) h, tt)
deeds_of-IsSafe d (removed objid reason) = tt
deeds_of-IsSafe d (status junk text) = (λ s h. perform-message d _ s h, tt)
deeds_of-IsSafe d (ping b) = (λ s h. perform-pong d s h, tt)
deeds_of-IsSafe d (player_id junk i p low) = (λ s h. perform-player_id d i _ s low h, tt)
deeds_of-IsSafe d (scores junk blue red ps long) =
    (λ s h. perform-scores d junk blue red ps s long h, tt)
deeds_of-IsSafe d (game_end reason winner blue red) =
    (λ s h. perform-winner d reason winner blue red s h, tt)

All-if :
    {A : Type 0} (P : A → Type 0) (b : Bool) (xs ys : List A)
    → All P xs
    → All P ys
    → All P (if b then xs else ys)
All-if P true xs ys h k = h
All-if P false xs ys h k = k

act_on-IsSafe :
    (d : Surface) (update_screen : Bool) (ms : List (ℕ × List ℕ))
    → All FromServer ms
    → All (IsSafe d) (act_on update_screen ms)
unfolding act_on
act_on-IsSafe d true [] u = (λ s h. perform-done d s h, tt)
act_on-IsSafe d false [] u = tt
act_on-IsSafe d update_screen ((id, msg) ∷ ms) (known, more) =
    All-if (IsSafe d) (id == Msg.sprite_msg16) _ _
      (All-append (IsSafe d) (if update_screen then [] else blit_background ∷ []) _
        (shown_before update_screen)
        (All-append (IsSafe d) (deeds_of (id, msg)) _ (deeds_of-IsSafe d known)
          (act_on-IsSafe d true ms more)))
      (All-append (IsSafe d) (deeds_of (id, msg)) _ (deeds_of-IsSafe d known)
        (act_on-IsSafe d update_screen ms more))
  where
    shown_before : (b : Bool) → All (IsSafe d) (if b then [] else blit_background ∷ [])
    shown_before true = tt
    shown_before false = (λ s h. perform-background d s h, tt)

pub init_screen-IsScreen : IsScreen init_screen
unfolding init_screen Scores.init_board
init_screen-IsScreen = record { anim = init_anim-IsAnim; entries = refl }

-- When the server queues sprites, their removal, status lines, pings, names, scores and ends of
-- matches for a spectator, they fit the buffer, and each tank belongs to one of the 16 slots and has a
-- direction of the compass, the spectator takes the datagram in without a read or a write outside of its tables of pictures, colours, turns, names
-- and scores, and leaves the counters of its animations in range and a score entry for each slot,
-- if that was so before.
pub receive-IsScreen :
    (d : Surface) (ms : List (ℕ × List ℕ)) (s : Screen) {b : MsgBuf}
    → All FromServer ms
    → queue_all empty_buf ms ≡ some b
    → IsScreen s
    → Gives IsScreenOf (receive d (b.count ∷ b.body) s)
unfolding receive
receive-IsScreen d ms s {b} known queued h =
    rw (get_message-queue_all ms {b = b} known queued)
      (perform_all-IsScreen d (act_on false ms) s (act_on-IsSafe d false ms known) h)
