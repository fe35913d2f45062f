-- ===== src/Print/Bounds.antt =====
-- The formatted text of libs/printk.c stays in its buffer.
use ucas_operating_system_la.Base.{
  ℕ, ◌+◌, ◌-◌, ◌%◌, ◌^◌, ◌≤◌, ◌<◌, ◌≡◌, refl, arith, Bool-cases, inl, inr, false, put, leb,
  for_loop, for_loop-invariant,
}
use ucas_operating_system_la.Strings.{Mem}
use ucas_operating_system_la.Strings.Copy.{in_area}
use ucas_operating_system_la.Print.{MiniBuff, putc, puts}

-- There is room for the end of the text, and the area of the buffer is what it was.
pub record IsBuff (b : MiniBuff) : Type 0 where
  pub low : b.buffer ≤ b.pbuffer
  pub high : b.pbuffer < b.buffer + b.buffer_len
  pub small : b.buffer_len < 2 ^ 32

-- Nothing outside the buffer has changed.
abbrev pub Inside : MiniBuff → Mem → Mem → Type 0
Inside b m m' = (a : ℕ) → in_area b.buffer b.buffer_len a ≡ false → m' a ≡ m a

module _ (b : MiniBuff) (m : Mem) (v : IsBuff b) where
  copied-Inside :
      (s n a : ℕ)
      → b.pbuffer + n < b.buffer + b.buffer_len
      → in_area b.buffer b.buffer_len a ≡ false
      → for_loop n 0 (λ i t. put t (b.pbuffer + i) (t (s + i))) m a ≡ m a
  copied-Inside s n a h out =
      for_loop-invariant (λ i (t : Mem). t a ≡ m a) n 0 (λ i t. put t (b.pbuffer + i) (t (s + i))) m
        (λ i t l k e. ground (arith, v.low)) refl

  -- A text of `n` characters that fits.
  moved-Inside :
      (s n : ℕ)
      → b.pbuffer + n < b.buffer + b.buffer_len
      → IsBuff (record b { pbuffer = b.pbuffer + n })
        × Inside b m
            (put (for_loop n 0 (λ i t. put t (b.pbuffer + i) (t (s + i))) m) (b.pbuffer + n) 0)
  moved-Inside s n h = (
    record { low = omega (arith, v.low); high = h; small = v.small },
    λ a out. ground (arith, copied-Inside s n a h out, v.low),
  )

  -- When the buffer has room for the end of its text, _putc and _puts, whatever they are to write,
  -- leave room for it and change no byte outside the buffer.
  pub putc-puts-Inside :
      (ch s len : ℕ)
      → (let (n, b', m') = putc ch b m in IsBuff b' × Inside b m m')
        × (let (n, b', m') = puts s len b m in IsBuff b' × Inside b m m')
  unfolding putc puts
  putc-puts-Inside ch s len =
      let room : (b.buffer_len + 2 ^ 32 - (b.pbuffer - b.buffer) - 1) % 2 ^ 32
          ≡ b.buffer_len - (b.pbuffer - b.buffer) - 1 =
        omega (arith, v.low, v.high, v.small) in
      let small : (b.pbuffer - b.buffer + 1) % 2 ^ 32 ≡ b.pbuffer - b.buffer + 1 =
        omega (arith, v.low, v.high, v.small) in
      (
        rw small (elim (Bool-cases (leb b.buffer_len (b.pbuffer - b.buffer + 1))) [
          | inl full ↦ rw full (v, λ a out. refl)
          | inr free ↦ rw free (
            record { low = omega (arith, v.low); high = ground (arith, v.low); small = v.small },
            λ a out. ground (arith, v.low, v.high),
          )
        ]),
        rw room (elim (Bool-cases (leb (b.pbuffer - b.buffer + 1 + len) b.buffer_len)) [
          | inl whole ↦ rw whole (moved-Inside s len (ground (arith, v.low, v.high)))
          | inr cut ↦ rw cut (moved-Inside s _ (omega (arith, v.low, v.high)))
        ]),
      )
