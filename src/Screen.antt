-- ===== src/Screen.antt =====
-- drivers/screen.c: the screen buffer, and what it sends to the terminal at the serial port. The VT100
-- sequences that the code prints are values of `Vt100`; the cursor's coordinates are natural numbers,
-- so the code's tests for negative ones are never true. The port has what was sent, the latest first.
pub mod Cursor
pub mod Reflush
use ucas_operating_system_la.Base.{
  ℕ, zero, suc, ◌+◌, ◌-◌, ◌*◌, ◌/◌, Bool, true, false, bnot, List, [], ◌∷◌, ◌==◌, ltb, leb,
  if◌then◌else◌, put, for_loop,
}

abbrev pub screen_width : ℕ
screen_width = 80

abbrev pub screen_height : ℕ
screen_height = 50

pub data Vt100 : Type 0 where
  vt100_move_cursor : (x y : ℕ) → Vt100
  vt100_clear vt100_hidden_cursor vt100_show_cursor : Vt100
  port_write_ch : ℕ → Vt100

pub record Screen : Type 0 where
  pub cursor_x : ℕ
  pub cursor_y : ℕ
  pub new_screen : ℕ → ℕ
  pub old_screen : ℕ → ℕ
  pub port : List Vt100

abbrev pub cell : ℕ → ℕ → ℕ
cell i j = i * screen_width + j

abbrev send : Vt100 → Screen → Screen
send v s = record s { port = v ∷ s.port }

-- The two double loops of `screen_scroll`.
abbrev scroll_old : ℕ → ℕ → Screen → Screen
scroll_old i j s = record s { old_screen = put s.old_screen (cell i j) 0 }

abbrev scroll_new : ℕ → ℕ → ℕ → Screen → Screen
scroll_new line2 i j s = record s {
  new_screen =
      put s.new_screen (cell i j) (if i == line2 then 32 else s.new_screen (cell (i + 1) j));
}

abbrev pub each_column : (ℕ → Screen → Screen) → Screen → Screen
each_column body s = for_loop screen_width 0 body s

-- `for (i = line1; i <= line2; i++)`
abbrev lines : ℕ → ℕ → (ℕ → Screen → Screen) → Screen → Screen
lines line1 line2 body s = for_loop (line2 + 1 - line1) line1 body s

pub screen_scroll : (line1 line2 : ℕ) → Screen → Screen
screen_scroll line1 line2 s =
    lines line1 line2 (λ i. each_column (scroll_new line2 i))
      (lines line1 line2 (λ i. each_column (scroll_old i)) s)

-- The first part of `screen_write_ch`: the character itself.
pub put_ch : ℕ → Screen → Screen
put_ch ch s =
    if ch == 10
    then record s { cursor_x = 0; cursor_y = s.cursor_y + 1 }
    else if ch == 8
    then (if ltb 0 s.cursor_x
        then record s {
          cursor_x = s.cursor_x - 1;
          new_screen = put s.new_screen (cell s.cursor_y (s.cursor_x - 1)) 32;
        }
        else s)
    else if ch == 13
    then record s { cursor_x = 0; cursor_y = s.cursor_y + 1 }
    else record s {
      new_screen = put s.new_screen (cell s.cursor_y s.cursor_x) ch;
      cursor_x = s.cursor_x + 1;
    }

-- The second part: the cursor is brought back onto the screen.
pub wrap_cursor : Screen → Screen
wrap_cursor s =
    if leb screen_width s.cursor_x then record s { cursor_y = s.cursor_y + 1; cursor_x = 0 } else s

pub scroll_cursor : Screen → Screen
unfolding screen_scroll
scroll_cursor s =
    if leb screen_height s.cursor_y
    then (let s' : Screen = screen_scroll (screen_height / 2 + 1) (screen_height - 1) s in
        record s' { cursor_x = 0; cursor_y = screen_height - 1 })
    else s

pub screen_write_ch : ℕ → Screen → Screen
unfolding put_ch wrap_cursor scroll_cursor
screen_write_ch ch s = scroll_cursor (wrap_cursor (put_ch ch s))

-- The characters of the string, up to its end.
pub screen_write : List ℕ → Screen → Screen
unfolding screen_write_ch
screen_write [] s = s
screen_write (ch ∷ buff) s = screen_write buff (screen_write_ch ch s)

pub screen_move_cursor : (x y : ℕ) → Screen → Screen
screen_move_cursor x y s = record s { cursor_x = x; cursor_y = y }

-- One cell of `screen_reflush`, with the flag `has_modified`.
pub reflush_cell : ℕ → ℕ → Bool × Screen → Bool × Screen
reflush_cell i j (has_modified, s) =
    if s.new_screen (cell i j) == s.old_screen (cell i j) then (has_modified, s) else (
      true,
      record s {
        port =
            port_write_ch (s.new_screen (cell i j))
            ∷ vt100_move_cursor (j + 1) (i + 1)
            ∷ vt100_hidden_cursor
            ∷ s.port;
        old_screen = put s.old_screen (cell i j) (s.new_screen (cell i j));
      },
    )

pub reflush_cells : Bool × Screen → Bool × Screen
unfolding reflush_cell
reflush_cells t = for_loop screen_height 0 (λ i. for_loop screen_width 0 (reflush_cell i)) t

-- Then the cursor is put back.
pub reflush_cursor : Bool × Screen → Screen
reflush_cursor (has_modified, s) =
    let s' : Screen = send (vt100_move_cursor (s.cursor_x + 1) (s.cursor_y + 1)) s in
    if has_modified then send vt100_show_cursor s' else s'

pub screen_reflush : Screen → Screen
unfolding reflush_cells reflush_cursor
screen_reflush s = reflush_cursor (reflush_cells (false, s))

-- It clears every line, whatever its arguments.
pub screen_clear : (line1 line2 : ℕ) → Screen → Screen
unfolding screen_reflush
screen_clear line1 line2 s =
    let s1 : Screen =
      for_loop screen_height 0
        (λ i. each_column λ j t. record t {
          new_screen = put t.new_screen (cell i j) 32;
          old_screen = put t.old_screen (cell i j) 0;
        })
        s in
    screen_reflush (record s1 { cursor_x = 0; cursor_y = 0 })

pub init_screen : Screen → Screen
unfolding screen_clear
init_screen s =
    send vt100_show_cursor
      (screen_clear 0 (screen_height - 1) (send vt100_clear (send vt100_hidden_cursor s)))
