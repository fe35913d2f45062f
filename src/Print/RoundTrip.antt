-- ===== src/Print/RoundTrip.antt =====
-- `atoi` of libs/string.c reads back what `mini_itoa` of libs/printk.c writes.
use ucas_operating_system_la.Base.{
  ℕ, zero, suc, ◌+◌, ◌-◌, ◌*◌, ◌%◌, ◌^◌, ◌≤◌, ◌<◌, ◌≡◌, ◌≢◌, inl, inr, refl, ◌∙◌, ap, arith,
  Bool-cases, false, ◌==◌, ==_iff, ==_ne, put, Option, some, none, leb,
}
use ucas_operating_system_la.Strings.{Mem, atoi, atoi_loop, dec_digit, oct_digit, max_string}
use ucas_operating_system_la.Print.{mini_itoa, digits_from, reverse}
use ucas_operating_system_la.Print.Digits.{
  shift, shift-suc, shift-le, Enough-32, Written, digits_from-Written,
}
use ucas_operating_system_la.Print.Reverse.{reverse-mirror}

-- The text of the value at `buffer`: `c` digits, the highest first, and the end.
record Text (v buffer c : ℕ) (m : Mem) : Type 0 where
  chars : (r : ℕ) → r < c → m (buffer + (c - suc r)) ≡ 48 + shift v r % 10
  end : m (buffer + c) ≡ 0
  some_digit : 0 < c
  top : shift v c ≡ 0
  leading : 0 < v → 0 < shift v (c - 1)
  one : v ≡ 0 → c ≡ 1

module _ (v buffer c : ℕ) (m m' : Mem) (w : Written v buffer c m m') where
  reversed-Text : Text v buffer c (reverse buffer c (put m' (buffer + c) 0))
  reversed-Text =
      let turned = reverse-mirror buffer c (put m' (buffer + c) 0) in
      record {
        chars = λ r l.
            let a : ℕ = buffer + (c - suc r) in
            let e : buffer + (buffer + c - 1 - a) ≡ buffer + r = omega arith in
            let t = turned a in let t' = rw e at t in ground (arith, t', w.chars r l);
        end = ground (arith, turned (buffer + c));
        some_digit = w.some_digit;
        top = w.top;
        leading = λ f. w.leading f (c - 1) (omega (arith, w.some_digit));
        one = w.one;
      }

  mini_itoa-run :
      v < 2 ^ 31
      → digits_from 32 10 false v buffer m ≡ (buffer + c, m')
      → mini_itoa v 10 false false buffer 0 m ≡ (c, reverse buffer c (put m' (buffer + c) 0))
  unfolding mini_itoa
  mini_itoa-run h run =
      let pos : leb (2 ^ 31) v ≡ false = ground arith in
      let len : buffer + c - buffer ≡ c = omega arith in
      let none_left : 0 - c ≡ 0 = omega arith in
      rw pos (rw run (rw len (rw none_left (rw len refl))))

-- One pass of the loop of `atoi`.
module _ (f base : ℕ) (digit : ℕ → Option ℕ) (m : Mem) (p ans : ℕ) where
  atoi_loop-stop : digit (m p) ≡ none → atoi_loop (suc f) base digit m p ans ≡ some ans
  unfolding atoi_loop
  atoi_loop-stop e = ground arith

  atoi_loop-step :
      (d : ℕ)
      → digit (m p) ≡ some d
      → atoi_loop (suc f) base digit m p ans
        ≡ atoi_loop f base digit m (suc p) ((ans * base + d) % 2 ^ 32)
  unfolding atoi_loop
  atoi_loop-step d e = ground arith

-- Reading on from the place with `r` digits left.
atoi_loop-Text :
    (fuel r v buffer c : ℕ) (m : Mem)
    → Text v buffer c m
    → v < 2 ^ 32
    → r ≤ c
    → r < fuel
    → atoi_loop fuel 10 dec_digit m (buffer + (c - r)) (shift v r) ≡ some v
atoi_loop-Text zero r v buffer c m t h l f = absurd (omega arith)
atoi_loop-Text (suc fuel) zero v buffer c m t h l f =
    let e : c - 0 ≡ c = omega arith in
    rw e (atoi_loop-stop fuel 10 dec_digit m (buffer + c) v (ap dec_digit t.end))
atoi_loop-Text (suc fuel) (suc r) v buffer c m t h l f =
    let d : ℕ = shift v r % 10 in
    let digit : dec_digit (48 + d) ≡ some d = ground arith in
    let value : (shift v (suc r) * 10 + d) % 2 ^ 32 ≡ shift v r =
      omega (arith, shift-suc v r, shift-le v r) in
    let next : suc (buffer + (c - suc r)) ≡ buffer + (c - r) = omega arith in
    let rest = atoi_loop-Text fuel r v buffer c m t h (omega arith) (omega arith) in
    atoi_loop-step fuel 10 dec_digit m (buffer + (c - suc r)) (shift v (suc r)) d
      (ap dec_digit (t.chars r (omega arith)) ∙ digit)
    ∙ rw (value, next) rest

module _ (v buffer c : ℕ) (m : Mem) (t : Text v buffer c m) where
  -- The text of a positive number does not start with 0.
  first_digit : 0 < v → m buffer ≢ 48
  first_digit pos e =
      let s = t.some_digit in
      let place : c - suc (c - 1) ≡ 0 = omega arith in
      let same : buffer + 0 ≡ buffer = omega arith in
      let back : suc (c - 1) ≡ c = omega arith in
      let char = t.chars (c - 1) (omega arith) in
      let char' = rw (place, same) at char in
      let top = t.top in
      let top' = rw (← back) at top in
      omega (arith, char', e, top', shift-suc v (c - 1), t.leading pos)

  zero_text : v ≡ 0 → (m buffer ≡ 48) × (m (buffer + 1) ≡ 0)
  zero_text e =
      let one = t.one e in
      let char = t.chars 0 (omega (arith, one)) in
      let end = t.end in
      let place : buffer + (c - 1) ≡ buffer = omega (arith, one) in
      let char' = rw place at char in let end' = rw one at end in (omega (arith, char', e), end')

  atoi-Text : v < 2 ^ 32 → c < max_string → atoi m buffer ≡ some v
  unfolding atoi
  atoi-Text h k = elim (Bool-cases (v == 0)) [
    | inl z ↦
        let none_left = (==_iff v 0).0 z in
        let (first, second) = zero_text none_left in
        rw first (
          rw second (
            atoi_loop-stop 4095 8 oct_digit m (buffer + 1) 0 (ap oct_digit second)
            ∙ rw none_left refl))
    | inr nz ↦
        let pos : 0 < v = ground arith in
        let whole : buffer + (c - c) ≡ buffer = omega arith in
        let read = atoi_loop-Text max_string c v buffer c m t h (omega arith) k in
        let read' = rw (whole, t.top) at read in rw (==_ne (m buffer) 48 (first_digit pos)) read'
  ]

-- A number from 0 to 2 ^ 31 - 1 that mini_itoa writes in base 10 without padding is read back by
-- atoi.
pub atoi-mini_itoa :
    (v buffer : ℕ) (m : Mem)
    → v < 2 ^ 31
    → atoi (mini_itoa v 10 false false buffer 0 m).1 buffer ≡ some v
atoi-mini_itoa v buffer m h =
    let (c, m', run, few, w) = digits_from-Written 32 v buffer m (Enough-32 v (omega arith)) in
    rw (mini_itoa-run v buffer c m m' w h run)
      (atoi-Text v buffer c _ (reversed-Text v buffer c m m' w) (omega arith) (omega (arith, few)))
