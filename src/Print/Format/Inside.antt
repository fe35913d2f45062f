-- ===== src/Print/Format/Inside.antt =====
-- `mini_vsnprintf` of libs/printk.c ends and writes to its buffer only.
use ucas_operating_system_la.Base.{
  ℕ, zero, suc, ◌-◌, ◌%◌, ◌^◌, ◌≤◌, ◌<◌, ◌≡◌, ◌⊎◌, inl, inr, refl, ◌∙◌, arith, Bool, true, false,
  Bool-cases, ◌||◌, ◌==◌, if◌then◌else◌, Option, none, some, Option-cases, List, [], ◌∷◌, length,
}
use mathlib.Core.Path.{subst}
use ucas_operating_system_la.Strings.{Mem, strlen}
use ucas_operating_system_la.Strings.Copy.{in_area}
use ucas_operating_system_la.Print.{MiniBuff, putc, puts, mini_itoa}
use ucas_operating_system_la.Print.Bounds.{IsBuff, putc-puts-Inside}
use ucas_operating_system_la.Print.Number.{mini_itoa-Outside}
use ucas_operating_system_la.Print.Format.{
  after_directive, directive, noted, put_number, put_directive, is_full, format_from,
  mini_vsnprintf,
}

-- The padding has one digit, and the rest of the format is no longer than what stands behind the `%`.
directive-lt :
    (cs : List ℕ) (zero_pad ch : ℕ) (rest : List ℕ)
    → directive cs ≡ some (zero_pad, ch, rest)
    → (zero_pad < 10) × (length rest ≤ length cs)
unfolding directive
directive-lt [] z ch rest e = absurd (ground arith)
directive-lt (c ∷ []) z ch rest e = ground arith
directive-lt (c ∷ d ∷ []) z ch rest e = ground arith
directive-lt (c ∷ d ∷ f ∷ more) z ch rest e = ground arith

-- Nothing outside the buffer and the 24 bytes at `bf` has changed.
abbrev pub Unchanged : (buffer buffer_len bf : ℕ) → Mem → Mem → Type 0
Unchanged buffer buffer_len bf m m' =
    (a : ℕ) → in_area buffer buffer_len a ≡ false → in_area bf 24 a ≡ false → m' a ≡ m a

module _ (buffer buffer_len bf : ℕ) (start : Mem) where
  -- The buffer is the same, and has room for the end of its text.
  record Kept (b : MiniBuff) (m : Mem) : Type 0 where
    pub valid : IsBuff b
    pub same : b.buffer ≡ buffer
    pub same_len : b.buffer_len ≡ buffer_len
    pub unchanged : Unchanged buffer buffer_len bf start m

  putc-Kept :
      (taken : Bool) (ch : ℕ) (b : MiniBuff) (m : Mem)
      → Kept b m
      → let (t, b', m') = noted taken (putc ch b m) in Kept b' m'
  unfolding putc
  putc-Kept taken ch b m v =
      let (valid, inside) = (putc-puts-Inside b m v.valid ch 0 0).0 in
      record {
        valid = valid;
        same = ground (arith, v.same);
        same_len = ground (arith, v.same_len);
        unchanged = λ a o o'. ground (arith, inside a, v.unchanged a, v.same, v.same_len);
      }

  puts-Kept :
      (s len : ℕ) (b : MiniBuff) (m : Mem)
      → Kept b m
      → let (t, b', m') = noted true (puts s len b m) in Kept b' m'
  unfolding puts
  puts-Kept s len b m v =
      let (valid, inside) = (putc-puts-Inside b m v.valid 0 s len).1 in
      record {
        valid = valid;
        same = v.same;
        same_len = v.same_len;
        unchanged = λ a o o'. ground (arith, inside a, v.unchanged a, v.same, v.same_len);
      }

  put_number-Kept :
      (radix : ℕ) (uppercase unsig : Bool) (value zero_pad : ℕ) (b : MiniBuff) (m : Mem)
      → (radix ≡ 10) ⊎ (radix ≡ 16)
      → zero_pad < 10
      → Kept b m
      → let (t, b', m') = noted true (put_number bf radix uppercase unsig value zero_pad b m) in
        Kept b' m'
  unfolding put_number
  put_number-Kept radix u unsig value zero_pad b m r few v =
      let (len, m1) = mini_itoa (value % 2 ^ 32) radix u unsig bf zero_pad m in
      let outside =
        mini_itoa-Outside bf m (value % 2 ^ 32) radix u unsig zero_pad (omega arith) r few in
      puts-Kept bf len b m1 record {
        valid = v.valid;
        same = v.same;
        same_len = v.same_len;
        unchanged = λ a o o'. outside a o' ∙ v.unchanged a o o';
      }

  -- A directive is carried out, or its string has no end.
  abbrev Put : (value : ℕ) → Mem → Option (Bool × MiniBuff × Mem) → Type 0
  Put value m none = strlen m value ≡ none
  Put value m (some (taken, b', m')) = Kept b' m'

  put_directive-Put :
      (zero_pad ch value : ℕ) (b : MiniBuff) (m : Mem)
      → zero_pad < 10
      → Kept b m
      → Put value m (put_directive bf zero_pad ch value b m)
  unfolding put_directive
  put_directive-Put zero_pad ch value b m few v = elim (Bool-cases (ch == 117 || ch == 100)) [
    | inl d ↦ rw d (put_number-Kept 10 false (ch == 117) value zero_pad b m (inl refl) few v)
    | inr d ↦ elim (Bool-cases (ch == 120 || ch == 88)) [
      | inl x ↦ rw (d, x) (put_number-Kept 16 (ch == 88) true value zero_pad b m (inr refl) few v)
      | inr x ↦ elim (Bool-cases (ch == 99)) [
        | inl c ↦ rw (d, x, c) (putc-Kept true (value % 256) b m v)
        | inr c ↦ elim (Bool-cases (ch == 115)) [
          | inr p ↦ rw (d, x, c, p) (putc-Kept false ch b m v)
          | inl p ↦ elim (Option-cases (strlen m value)) [
            | inl e ↦ rw (d, x, c, p, e) e
            | inr (len, e) ↦ rw (d, x, c, p, e) (puts-Kept value len b m v)
          ]
        ]
      ]
    ]
  ]

  module _ (args : ℕ → ℕ) where
    -- The end of the format, or a string without an end.
    abbrev Formatted : Option (MiniBuff × Mem) → Type 0
    Formatted r =
        ((b : MiniBuff) × (m : Mem) × (r ≡ some (b, m)) × Kept b m)
        ⊎ ((k : ℕ) × (m : Mem) × Unchanged buffer buffer_len bf start m
            × (strlen m (args k) ≡ none))

    format_from-Formatted :
        (n : ℕ) (fmt : List ℕ) (k : ℕ) (b : MiniBuff) (m : Mem)
        → length fmt < n
        → Kept b m
        → Formatted (format_from n bf args fmt k b m)
    unfolding format_from
    format_from-Formatted zero fmt k b m h v = absurd (omega arith)
    format_from-Formatted (suc n) [] k b m h v = inl (b, m, refl, v)
    format_from-Formatted (suc n) (c ∷ cs) k b m h v = elim (Bool-cases (is_full b)) [
      | inl full ↦ rw full (inl (b, m, refl, v))
      | inr free ↦ elim (Bool-cases (c == 37)) [
        | inr plain ↦
            let (t, b', m') = putc c b m in
            rw (free, plain)
              (format_from-Formatted n cs k b' m' (omega (arith, h)) (putc-Kept false c b m v))
        | inl percent ↦ elim (Option-cases (directive cs)) [
          | inl e ↦ rw (free, percent, e) (inl (b, m, refl, v))
          | inr ((zero_pad, ch, rest), e) ↦
              let (few, shorter) = directive-lt cs zero_pad ch rest e in
              let put = put_directive-Put zero_pad ch (args k) b m few v in
              elim (Option-cases (put_directive bf zero_pad ch (args k) b m)) [
                | inl e' ↦
                    rw (free, percent, e, e', after_directive)
                      (inr (k, m, v.unchanged, subst (λ r. Put (args k) m r) e' put))
                | inr ((taken, b', m'), e') ↦
                    rw (free, percent, e, e', after_directive)
                      (format_from-Formatted n rest (if taken then suc k else k) b' m'
                        (omega (arith, h, shorter)) (subst (λ r. Put (args k) m r) e' put))
              ]
        ]
      ]
    ]

-- For every format and whatever the arguments are, with a buffer that is not empty, mini_vsnprintf
-- ends with a length below that of the buffer, and no byte outside the buffer and the 24 bytes for a
-- number changes, unless the scan of 4096 bytes does not find the end of an argument, taken as a
-- string, in a memory that differs in those places only.
pub mini_vsnprintf-Inside :
    (buffer buffer_len bf : ℕ) (fmt : List ℕ) (args : ℕ → ℕ) (m : Mem)
    → 0 < buffer_len
    → buffer_len < 2 ^ 32
    → ((ret : ℕ) × (m' : Mem) × (mini_vsnprintf buffer buffer_len fmt args bf m ≡ some (ret, m'))
        × (ret < buffer_len)
        × Unchanged buffer buffer_len bf m m')
      ⊎ ((k : ℕ) × (m' : Mem) × Unchanged buffer buffer_len bf m m' × (strlen m' (args k) ≡ none))
unfolding mini_vsnprintf
mini_vsnprintf-Inside buffer buffer_len bf fmt args m some_room small =
    let b0 : MiniBuff = record { buffer = buffer; pbuffer = buffer; buffer_len = buffer_len } in
    let v : Kept buffer buffer_len bf m b0 m = record {
      valid = record { low = omega arith; high = omega (arith, some_room); small = small };
      same = refl;
      same_len = refl;
      unchanged = λ a o o'. refl;
    } in
    elim (format_from-Formatted buffer buffer_len bf m args (suc (length fmt)) fmt 0 b0 m
      (omega arith) v) [
        | inr missing ↦ inr missing
        | inl (b, m', e, w) ↦ inl (
          b.pbuffer - b.buffer,
          m',
          rw e refl,
          ground (arith, w.valid.low, w.valid.high, w.same, w.same_len),
          w.unchanged,
        )
      ]
