-- ===== src/Screen/Reflush.antt =====
-- What the terminal shows after `screen_reflush` (drivers/screen.c).
use ucas_operating_system_la.Base.{
  ℕ, suc, ◌+◌, ◌-◌, ◌<◌, ◌≡◌, refl, ap, arith, Bool, true, false, List, [], ◌∷◌, for_loop,
  for_loop-invariant, put, ◌==◌, Bool-cases, inl, inr,
}
use ucas_operating_system_la.Screen.{
  Screen, Vt100, vt100_move_cursor, vt100_clear, vt100_hidden_cursor, vt100_show_cursor,
  port_write_ch, screen_width, screen_height, cell, reflush_cell, reflush_cells, reflush_cursor,
  screen_reflush,
}

-- A VT100 terminal: its cells by row and column from 0, and its cursor, which counts from 1.
pub record Terminal : Type 0 where
  pub cells : ℕ → ℕ → ℕ
  pub x : ℕ
  pub y : ℕ

abbrev pub react : Vt100 → Terminal → Terminal
react (vt100_move_cursor x y) t = record t { x = x; y = y }
react vt100_clear t = record t { cells = λ i j. 32 }
react vt100_hidden_cursor t = t
react vt100_show_cursor t = t
react (port_write_ch ch) t = record t {
  cells = put t.cells (t.y - 1) (put (t.cells (t.y - 1)) (t.x - 1) ch);
  x = t.x + 1;
}

-- The terminal after all that was sent, the latest first.
abbrev pub display : List Vt100 → Terminal → Terminal
display [] t = t
display (v ∷ vs) t = react v (display vs t)

-- Where the code takes a cell to be up to date, the terminal shows the buffer's character.
abbrev pub Shows : Terminal → Screen → Type 0
Shows t s =
    (i j : ℕ)
    → i < screen_height
    → j < screen_width
    → s.old_screen (cell i j) ≡ s.new_screen (cell i j)
    → (display s.port t).cells i j ≡ s.new_screen (cell i j)

-- The loops have come to the cell `p`.
record Progress (t : Terminal) (s0 : Screen) (p : ℕ) (s : Screen) : Type 0 where
  same : s.new_screen ≡ s0.new_screen
  cursor : (s.cursor_x ≡ s0.cursor_x) × (s.cursor_y ≡ s0.cursor_y)
  shows : Shows t s
  done : (q : ℕ) → q < p → s.old_screen q ≡ s.new_screen q

module _ (t : Terminal) (s0 : Screen) where
  reflush_cell-Progress :
      (i j : ℕ) (r : Bool × Screen)
      → i < screen_height
      → j < screen_width
      → Progress t s0 (cell i j) r.1
      → Progress t s0 (cell i (suc j)) (reflush_cell i j r).1
  unfolding reflush_cell
  reflush_cell-Progress i j (m, s) hi hj p =
      elim (Bool-cases (s.new_screen (cell i j) == s.old_screen (cell i j))) [
        | inl e ↦ rw e (record {
          same = p.same;
          cursor = p.cursor;
          shows = p.shows;
          done = λ q l. ground (arith, p.done q);
        })
        | inr d ↦ rw d (record {
          same = p.same;
          cursor = p.cursor;
          shows = λ a b ha hb e. ground (arith, p.shows a b ha hb);
          done = λ q l. ground (arith, p.done q);
        })
      ]

  row-Progress :
      (i : ℕ) (r : Bool × Screen)
      → i < screen_height
      → Progress t s0 (cell i 0) r.1
      → Progress t s0 (cell (suc i) 0) (for_loop screen_width 0 (reflush_cell i) r).1
  row-Progress i r hi p =
      let e : cell (suc i) 0 ≡ cell i screen_width = omega arith in
      rw e (
        for_loop-invariant (λ j (u : Bool × Screen). Progress t s0 (cell i j) u.1) screen_width 0
          (reflush_cell i) r (λ j u l h q. reflush_cell-Progress i j u hi h q) p)

  reflush_cells-Progress :
      Shows t s0 → Progress t s0 (cell screen_height 0) (reflush_cells (false, s0)).1
  unfolding reflush_cells
  reflush_cells-Progress h =
      for_loop-invariant (λ i (u : Bool × Screen). Progress t s0 (cell i 0) u.1) screen_height 0
        (λ i. for_loop screen_width 0 (reflush_cell i)) (false, s0)
        (λ i u l h' q. row-Progress i u h' q)
        (record {
          same = refl;
          cursor = (refl, refl);
          shows = h;
          done = λ q l. absurd (omega arith);
        })

-- The terminal and the buffer agree.
abbrev Agrees : Terminal → Screen → Screen → Type 0
Agrees t s s' =
    ((i j : ℕ)
      → i < screen_height
      → j < screen_width
      → ((display s'.port t).cells i j ≡ s.new_screen (cell i j))
        × (s'.old_screen (cell i j) ≡ s.new_screen (cell i j)))
    × ((display s'.port t).x ≡ s.cursor_x + 1)
    × ((display s'.port t).y ≡ s.cursor_y + 1)

reflush_cursor-Agrees :
    (t : Terminal) (s : Screen) (r : Bool × Screen)
    → Progress t s (cell screen_height 0) r.1
    → Agrees t s (reflush_cursor r)
unfolding reflush_cursor
reflush_cursor-Agrees t s (true, s1) p =
    let same = λ (a : ℕ). ap (λ (f : ℕ → ℕ). f a) p.same in
    (
      λ i j hi hj.
          ground
            (arith, same (cell i j), p.shows i j hi hj, p.done (cell i j) (omega (arith, hi, hj))),
      ap (λ (x : ℕ). x + 1) p.cursor.0,
      ap (λ (x : ℕ). x + 1) p.cursor.1,
    )
reflush_cursor-Agrees t s (false, s1) p =
    let same = λ (a : ℕ). ap (λ (f : ℕ → ℕ). f a) p.same in
    (
      λ i j hi hj.
          ground
            (arith, same (cell i j), p.shows i j hi hj, p.done (cell i j) (omega (arith, hi, hj))),
      ap (λ (x : ℕ). x + 1) p.cursor.0,
      ap (λ (x : ℕ). x + 1) p.cursor.1,
    )

-- If the terminal shows the buffer wherever the code takes it to be up to date, then after
-- screen_reflush it shows the buffer everywhere, with its cursor at the buffer's, and the code takes
-- every cell to be up to date.
pub screen_reflush-Shows :
    (t : Terminal) (s : Screen)
    → Shows t s
    → ((i j : ℕ)
        → i < screen_height
        → j < screen_width
        → ((display (screen_reflush s).port t).cells i j ≡ s.new_screen (cell i j))
          × ((screen_reflush s).old_screen (cell i j) ≡ s.new_screen (cell i j)))
      × ((display (screen_reflush s).port t).x ≡ s.cursor_x + 1)
      × ((display (screen_reflush s).port t).y ≡ s.cursor_y + 1)
unfolding screen_reflush
screen_reflush-Shows t s h =
    reflush_cursor-Agrees t s (reflush_cells (false, s)) (reflush_cells-Progress t s h)
