-- ===== src/Print/Digits.antt =====
-- The digits that `mini_itoa` of libs/printk.c writes in base 10.
use ucas_operating_system_la.Base.{
  ℕ, zero, suc, ◌+◌, ◌/◌, ◌%◌, ◌^◌, ◌≤◌, ◌<◌, ◌≡◌, ◌≢◌, ◌⊎◌, inl, inr, refl, ◌∙◌, arith, Bool-cases,
  false, ◌==◌, put,
}
use ucas_operating_system_la.Strings.{Mem}
use ucas_operating_system_la.Print.{digits_from, digit_char}

-- The value without its `k` lowest digits.
abbrev pub shift : ℕ → ℕ → ℕ
shift v zero = v
shift v (suc k) = shift (v / 10) k

pub shift-suc : (v k : ℕ) → shift v (suc k) ≡ shift v k / 10
shift-suc v zero = refl
shift-suc v (suc k) = shift-suc (v / 10) k

pub shift-le : (v k : ℕ) → shift v k ≤ v
shift-le v zero = omega arith
shift-le v (suc k) = omega (arith, shift-le (v / 10) k)

-- The value has at most `n` digits, and at least one is written.
abbrev pub Enough : ℕ → ℕ → Type 0
Enough zero v = ⊥
Enough (suc n) v = (v < 10) ⊎ Enough n (v / 10)

pub Enough-32 : (v : ℕ) → v < 2 ^ 32 → Enough 32 v
Enough-32 v h = inr (inr (inr (inr (inr (inr (inr (inr (inr (inl (omega arith))))))))))

-- The places from `p` on have the `c` digits of the value, the lowest first, and no more; the memory
-- below `p` is as before.
pub record Written (v p c : ℕ) (m m' : Mem) : Type 0 where
  pub some_digit : 0 < c
  pub chars : (k : ℕ) → k < c → m' (p + k) ≡ 48 + shift v k % 10
  pub top : shift v c ≡ 0
  pub leading : 0 < v → (k : ℕ) → k < c → 0 < shift v k
  pub one : v ≡ 0 → c ≡ 1
  pub below : (a : ℕ) → a < p → m' a ≡ m a

module _ (v p c : ℕ) (m m' : Mem)
    (w : Written (v / 10) (suc p) c (put m p (digit_char false (v % 10))) m') where
  chars_suc : (k : ℕ) → k < suc c → m' (p + k) ≡ 48 + shift v k % 10
  chars_suc zero l = ground (arith, w.below p)
  chars_suc (suc k) l =
      let e : p + suc k ≡ suc p + k = omega arith in rw e (w.chars k (omega arith))

  leading_suc : v / 10 ≢ 0 → (k : ℕ) → k < suc c → 0 < shift v k
  leading_suc big zero l = omega arith
  leading_suc big (suc k) l = w.leading (omega arith) k (omega arith)

pub digits_from-Written :
    (n v p : ℕ) (m : Mem)
    → Enough n v
    → (c : ℕ) × (m' : Mem) × (digits_from n 10 false v p m ≡ (p + c, m'))
      × (c ≤ n)
      × Written v p c m m'
unfolding digits_from
digits_from-Written zero v p m h = absurd h
digits_from-Written (suc n) v p m h = elim (Bool-cases (v / 10 == 0)) [
  | inl last ↦ (
    1,
    put m p (digit_char false (v % 10)),
    (let e : suc p ≡ p + 1 = omega arith in rw (last, e) refl),
    omega arith,
    record {
      some_digit = omega arith;
      chars = λ k l. let e : k ≡ 0 = omega arith in rw e (ground arith);
      top = ground arith;
      leading = λ f k l. let e : k ≡ 0 = omega arith in rw e f;
      one = λ e. refl;
      below = λ a l. ground arith;
    },
  )
  | inr more ↦
      let big : v / 10 ≢ 0 = λ e. ground arith in
      let enough : Enough n (v / 10) = elim h [
        | inl small ↦ absurd (omega arith)
        | inr rest ↦ rest
      ] in
      let m1 : Mem = put m p (digit_char false (v % 10)) in
      let (c, m', run, few, w) = digits_from-Written n (v / 10) (suc p) m1 enough in
      (
        suc c,
        m',
        (let e : suc p + c ≡ p + suc c = omega arith in rw more (run ∙ rw e refl)),
        omega (arith, few),
        record {
          some_digit = omega arith;
          chars = λ k. chars_suc v p c m m' w k;
          top = w.top;
          leading = λ f k. leading_suc v p c m m' w big k;
          one = λ e. absurd (big (omega arith));
          below = λ a l. ground (arith, w.below a);
        },
      )
]
