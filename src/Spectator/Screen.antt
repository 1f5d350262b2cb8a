-- ===== src/Spectator/Screen.antt =====
-- The whole state of the spectator and what each deed does to it: the calls of `getMessage` and
-- doneDrawing of spectator/gfx.c.
use spectranet.Base.{ℕ, ◌+◌, ◌%◌, pos, Option, some, List, [], ◌∷◌, ◌++◌, ◌>>=◌}
use spectranet.Spectator.Reader.{
  Deed, blit_background, done_drawing, start_game, pong, manage_sprite, handle_player_id,
  show_scores, show_winner, add_screen_msg, get_message,
}
use spectranet.Spectator.Draw
use spectranet.Spectator.Draw.{Anim, Shape, background, sprite_of, init_anim}
use spectranet.Spectator.Notes
use spectranet.Spectator.Notes.{Notes, init_notes, blit_screen_msgs}
use spectranet.Spectator.Scores
use spectranet.Spectator.Scores.{Board, init_board, blit_scores, blit_winner}

pub record Screen : Type 0 where
  pub anim : Anim
  pub notes : Notes
  pub board : Board

-- What `initGfx` sets.
unfoldable pub init_screen : Screen
init_screen = record { anim = init_anim; notes = init_notes; board = init_board }

-- The surface: its middle, its height, and how wide and tall a text in large letters is.
pub record Surface : Type 0 where
  pub cntr : ℕ
  pub hgt : ℕ
  pub wid : List ℕ → ℕ
  pub tall : List ℕ → ℕ

-- `doneDrawing`.
unfoldable pub end_frame : Surface → Screen → Screen × List Shape
unfolding blit_screen_msgs blit_scores blit_winner
end_frame d s =
    let lines = blit_screen_msgs (pos d.hgt) s.notes in
    (
      record s {
        anim = record s.anim { flashclock = (s.anim.flashclock + 1) % 256 };
        notes = lines.0;
      },
      lines.1
          ++ (blit_scores (pos d.cntr) (pos d.hgt) s.board
              ++ blit_winner d.wid d.tall d.cntr d.hgt s.board),
    )

-- A deed; `none` is a read or a write outside of one of the arrays.
unfoldable pub perform : Surface → Deed → Screen → Option (Screen × List Shape)
unfolding end_frame sprite_of Draw.manage_sprite Draw.handle_player_id Scores.show_scores
    Scores.show_winner Scores.start_game Notes.add_screen_msg
perform d blit_background s = some (s, background ∷ [])
perform d done_drawing s = some (end_frame d s)
perform d start_game s = some (record s { board = Scores.start_game s.board }, [])
perform d pong s = some (s, [])
perform d (manage_sprite msg) s = do
  m ← sprite_of msg
  (anim, drawn) ← Draw.manage_sprite m s.anim
  some (record s { anim = anim }, drawn)
perform d (handle_player_id msg) s = do
  anim ← Draw.handle_player_id msg s.anim
  some (record s { anim = anim }, [])
perform d (show_scores msg) s = do
  board ← Scores.show_scores s.anim.players msg s.board
  some (record s { board = board }, [])
perform d (show_winner msg) s = do
  board ← Scores.show_winner msg s.board
  some (record s { board = board }, [])
perform d (add_screen_msg t) s = some (record s { notes = Notes.add_screen_msg t s.notes }, [])

unfoldable pub perform_all : Surface → List Deed → Screen → Option (Screen × List Shape)
unfolding perform
perform_all d [] s = some (s, [])
perform_all d (e ∷ es) s = do
  (t, drawn) ← perform d e s
  (u, more) ← perform_all d es t
  some (u, drawn ++ more)

-- A datagram, from its bytes to what is drawn.
unfoldable pub receive : Surface → List ℕ → Screen → Option (Screen × List Shape)
unfolding get_message perform_all
receive d rxbuf s = do es ← get_message rxbuf; perform_all d es s
