-- ===== src/Print/Number.antt =====
-- The text of a number that `mini_itoa` of libs/printk.c writes fits the 24 bytes of `mini_vsnprintf`.
use ucas_operating_system_la.Base.{
  ℕ, zero, suc, ◌+◌, ◌-◌, ◌/◌, ◌%◌, ◌^◌, ◌≤◌, ◌<◌, ◌≡◌, ◌⊎◌, inl, inr, refl, arith, Bool, true,
  false, bnot, ◌&&◌, Bool-cases, ◌==◌, leb, put, if◌then◌else◌,
}
use ucas_operating_system_la.Strings.{Mem}
use ucas_operating_system_la.Strings.Copy.{in_area}
use ucas_operating_system_la.Print.{digits_from, digit_char, pad_from, sign, finish, mini_itoa}
use ucas_operating_system_la.Print.Reverse.{reverse-mirror}

-- Nothing outside the `n` bytes at `p` has changed.
abbrev pub Outside : (p n : ℕ) → Mem → Mem → Type 0
Outside p n m m' = (a : ℕ) → in_area p n a ≡ false → m' a ≡ m a

-- The value has at most `k` digits.
abbrev Short : (radix k value : ℕ) → Type 0
Short radix zero value = ⊥
Short radix (suc k) value = (value / radix ≡ 0) ⊎ Short radix k (value / radix)

Short-10 : (value : ℕ) → value < 2 ^ 32 → Short 10 10 value
Short-10 v h = inr (inr (inr (inr (inr (inr (inr (inr (inr (inl (omega arith))))))))))

Short-16 : (value : ℕ) → value < 2 ^ 32 → Short 16 10 value
Short-16 v h = inr (inr (inr (inr (inr (inr (inr (inr (inr (inl (omega arith))))))))))

digits_from-Outside :
    (n k radix : ℕ) (uppercase : Bool) (value p : ℕ) (m : Mem)
    → k ≤ n
    → Short radix k value
    → let (q, m') = digits_from n radix uppercase value p m in
      (p ≤ q) × (q ≤ p + k) × Outside p k m m'
unfolding digits_from
digits_from-Outside n zero radix u v p m h s = absurd s
digits_from-Outside zero (suc k) radix u v p m h s = absurd (omega arith)
digits_from-Outside (suc n) (suc k) radix u v p m h s = elim (Bool-cases (v / radix == 0)) [
  | inl last ↦ rw last (omega arith, omega arith, λ a o. ground arith)
  | inr more ↦
      let short : Short radix k (v / radix) = elim s [
        | inl e ↦ absurd (ground arith)
        | inr t ↦ t
      ] in
      let (lo, hi, o) =
        digits_from-Outside n k radix u (v / radix) (suc p) (put m p (digit_char u (v % radix)))
          (omega arith) short in
      rw more (omega (arith, lo), omega (arith, hi), λ a out. ground (arith, o a))
]

pad_from-Outside :
    (n p : ℕ) (m : Mem) → let (q, m') = pad_from n p m in (q ≡ p + n) × Outside p n m m'
unfolding pad_from
pad_from-Outside zero p m = (omega arith, λ a o. refl)
pad_from-Outside (suc n) p m =
    let (e, o) = pad_from-Outside n (suc p) (put m p 48) in
    (omega (arith, e), λ a out. ground (arith, o a))

module _ (buffer : ℕ) (m : Mem) where
  finish-Outside :
      (p : ℕ) (m' : Mem)
      → buffer ≤ p
      → p < buffer + 24
      → Outside buffer 24 m m'
      → Outside buffer 24 m (finish buffer (p, m')).1
  finish-Outside p m' lo hi o a out =
      ground (arith, reverse-mirror buffer (p - buffer) (put m' p 0) a, o a)

  sign-Outside :
      (negative : Bool) (p : ℕ) (m' : Mem)
      → buffer ≤ p
      → p ≤ buffer + 10
      → Outside buffer 24 m m'
      → Outside buffer 24 m (finish buffer (sign negative (p, m'))).1
  sign-Outside true p m' lo hi o =
      finish-Outside (suc p) (put m' p 45) (omega arith) (omega arith)
        (λ a out. ground (arith, o a))
  sign-Outside false p m' lo hi o = finish-Outside p m' lo (omega arith) o

  number-Outside :
      (radix magnitude : ℕ) (uppercase negative : Bool) (zero_pad : ℕ)
      → zero_pad < 10
      → Short radix 10 magnitude
      → let (p, m') = digits_from 32 radix uppercase magnitude buffer m in
        Outside buffer 24 m
          (finish buffer (sign negative (pad_from (zero_pad - (p - buffer)) p m'))).1
  number-Outside radix v u negative zero_pad few s =
      let (p, m') = digits_from 32 radix u v buffer m in
      let (lo, hi, o) = digits_from-Outside 32 10 radix u v buffer m (omega arith) s in
      let (q, m'') = pad_from (zero_pad - (p - buffer)) p m' in
      let (e, o') = pad_from-Outside (zero_pad - (p - buffer)) p m' in
      sign-Outside negative q m'' (omega (arith, e, lo)) (omega (arith, e, lo, hi))
        λ a out. ground (arith, o a, o' a)

  pub mini_itoa-Outside :
      (value radix : ℕ) (uppercase unsig : Bool) (zero_pad : ℕ)
      → value < 2 ^ 32
      → (radix ≡ 10) ⊎ (radix ≡ 16)
      → zero_pad < 10
      → Outside buffer 24 m (mini_itoa value radix uppercase unsig buffer zero_pad m).1
  unfolding mini_itoa
  mini_itoa-Outside v radix u unsig zero_pad h r few =
      let negative : Bool = leb (2 ^ 31) v && bnot unsig in
      let magnitude : ℕ = if negative then 2 ^ 32 - v else v in
      let small : magnitude < 2 ^ 32 = ground arith in
      elim r [
        | inl e ↦
            rw e (number-Outside 10 magnitude u negative zero_pad few (Short-10 magnitude small))
        | inr e ↦
            rw e (number-Outside 16 magnitude u negative zero_pad few (Short-16 magnitude small))
      ]
