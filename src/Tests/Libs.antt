-- ===== src/Tests/Libs.antt =====
-- The library functions, a mailbox and the screen at concrete values.
use ucas_operating_system_la.Base.{
  ℕ, true, false, bnot, [], ◌∷◌, ◌≡◌, ◌<◌, ◌↔◌, refl, arith, put, some, ◌==◌, inr, ◌+◌,
}
use ucas_operating_system_la.Bitmap.{Words, bitmap_set, bitmap_clear, bitmap_reverse, bitmap_assign}
use ucas_operating_system_la.Bitmap.Check.{Updates, bitmap-Updates}
use ucas_operating_system_la.Strings.{Mem, strcmp, strcpy, equal}
use ucas_operating_system_la.Strings.Copy.{IsString}
use ucas_operating_system_la.Strings.Compare.{SameChars, strcmp-equal, strcmp-strcpy}
use ucas_operating_system_la.Mailbox.{Mailbox, mbox_put, mbox_take, find_box, hash_from}
use ucas_operating_system_la.Mailbox.Ring.{IsRing, byte, mbox_put-appends, mbox_take-first}
use ucas_operating_system_la.Mailbox.Open.{Finds, find_box-Finds}
use ucas_operating_system_la.Screen.{Screen, cell, screen_reflush}
use ucas_operating_system_la.Screen.Reflush.{Terminal, display, screen_reflush-Shows}

-- The identifiers 0, 33 and 34 are taken.
abbrev demo_words : Words
demo_words = put (put (λ i. 0) 0 1) 1 6

bitmap-Updates_example :
    Updates (λ b. true) demo_words 35 (bitmap_set demo_words 35)
    × Updates (λ b. false) demo_words 35 (bitmap_clear demo_words 35)
    × Updates bnot demo_words 35 (bitmap_reverse demo_words 35)
    × Updates (λ b. bnot (7 == 0)) demo_words 35 (bitmap_assign demo_words 35 7)
bitmap-Updates_example = bitmap-Updates demo_words 35 7

-- "hi" at the address 100, "ho" at 200.
abbrev demo_mem : Mem
demo_mem = put (put (put (put (λ a. 0) 100 104) 101 105) 200 104) 201 111

at_100 : IsString demo_mem 100 2
at_100 = record { chars = λ i l. ground arith; end = refl }

at_200 : IsString demo_mem 200 2
at_200 = record { chars = λ i l. ground arith; end = refl }

strcmp-equal_example :
    (strcmp demo_mem 100 200 ≡ some equal) ↔ ((◌≡◌ {A = ℕ} 2 2) × SameChars demo_mem 100 200 2)
strcmp-equal_example =
    strcmp-equal demo_mem 100 200 2 2 (λ a. ground arith) at_100 at_200 (omega arith) (omega arith)

strcmp-strcpy_example :
    (m' : Mem) × (strcpy 300 100 demo_mem ≡ some m') × (strcmp m' 300 100 ≡ some equal)
strcmp-strcpy_example =
    strcmp-strcpy demo_mem 300 100 2 (λ a. ground arith) at_100 (omega arith) (inr (omega arith))

-- Six bytes wait, two of them before the end of the buffer.
abbrev demo_box : Mailbox
demo_box = record {
  name = 98 ∷ [];
  buff = λ i. i;
  user_cnt = 1;
  buff_used = 6;
  start = 62;
  end = 4;
}

demo-IsRing : IsRing demo_box
demo-IsRing = record { used = omega arith; start_low = omega arith; end_at = refl }

abbrev demo_msg : ℕ → ℕ
demo_msg = λ i. i + 70

mbox_put-appends_example :
    IsRing (mbox_put demo_msg 3 demo_box)
    × ((mbox_put demo_msg 3 demo_box).buff_used ≡ 9)
    × ((i : ℕ) → i < 6 → byte (mbox_put demo_msg 3 demo_box) i ≡ byte demo_box i)
    × ((i : ℕ) → i < 3 → byte (mbox_put demo_msg 3 demo_box) (6 + i) ≡ demo_msg i)
mbox_put-appends_example = mbox_put-appends demo_msg 3 demo_box demo-IsRing (omega arith)

mbox_take-first_example :
    IsRing (mbox_take demo_msg 4 demo_box).1
    × ((mbox_take demo_msg 4 demo_box).1.buff_used + 4 ≡ 6)
    × ((i : ℕ) → i < 4 → (mbox_take demo_msg 4 demo_box).0 i ≡ byte demo_box i)
    × ((i : ℕ)
        → i < (mbox_take demo_msg 4 demo_box).1.buff_used
        → byte (mbox_take demo_msg 4 demo_box).1 i ≡ byte demo_box (4 + i))
mbox_take-first_example = mbox_take-first demo_msg 4 demo_box demo-IsRing (omega arith)

find_box-Finds_example :
    Finds
      (λ i. demo_box)
      (98 ∷ [])
      (find_box 32 (λ i. demo_box) (98 ∷ []) (hash_from (98 ∷ []) 0) 0)
find_box-Finds_example = find_box-Finds (λ i. demo_box) (98 ∷ [])

-- The last cell of the screen holds "A", which was not sent yet.
abbrev demo_screen : Screen
demo_screen = record {
  cursor_x = 79;
  cursor_y = 49;
  new_screen = put (λ p. 32) 3999 65;
  old_screen = λ p. 32;
  port = [];
}

abbrev demo_terminal : Terminal
demo_terminal = record { cells = λ i j. 32; x = 1; y = 1 }

screen_reflush-Shows_example :
    ((i j : ℕ)
      → i < 50
      → j < 80
      → ((display (screen_reflush demo_screen).port demo_terminal).cells i j
          ≡ demo_screen.new_screen (cell i j))
        × ((screen_reflush demo_screen).old_screen (cell i j) ≡ demo_screen.new_screen (cell i j)))
    × ((display (screen_reflush demo_screen).port demo_terminal).x ≡ 80)
    × ((display (screen_reflush demo_screen).port demo_terminal).y ≡ 50)
screen_reflush-Shows_example =
    screen_reflush-Shows demo_terminal demo_screen (λ i j hi hj e. ground arith)
