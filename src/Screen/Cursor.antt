-- ===== src/Screen/Cursor.antt =====
-- The cursor of drivers/screen.c.
use ucas_operating_system_la.Base.{ℕ, ◌<◌, arith, List, [], ◌∷◌}
use ucas_operating_system_la.Screen.{
  Screen, screen_width, screen_height, put_ch, wrap_cursor, scroll_cursor, screen_write_ch,
  screen_write,
}

-- The cursor is on the screen.
abbrev pub OnScreen : Screen → Type 0
OnScreen s = (s.cursor_x < screen_width) × (s.cursor_y < screen_height)

-- screen_write leaves the cursor on the screen if it was there, whatever is written.
pub screen_write-OnScreen :
    (buff : List ℕ) (s : Screen) → OnScreen s → OnScreen (screen_write buff s)
unfolding screen_write screen_write_ch put_ch wrap_cursor scroll_cursor
screen_write-OnScreen [] s h = h
screen_write-OnScreen (ch ∷ buff) s h =
    screen_write-OnScreen buff (screen_write_ch ch s) (ground arith)
