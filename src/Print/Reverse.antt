-- ===== src/Print/Reverse.antt =====
-- The loop of `mini_itoa` (libs/printk.c) that turns a text round.
use ucas_operating_system_la.Base.{
  ℕ, suc, ◌+◌, ◌-◌, ◌/◌, ◌<◌, ◌≡◌, arith, ◌&&◌, ◌||◌, ltb, leb, if◌then◌else◌, ◌==◌,
  for_loop-invariant, Bool-cases, inl, inr,
}
use ucas_operating_system_la.Strings.{Mem}
use ucas_operating_system_la.Strings.Copy.{in_area}
use ucas_operating_system_la.Print.{swap, reverse}

-- The address on the other side of the text.
abbrev pub mirror : (buffer len a : ℕ) → ℕ
mirror buffer len a = buffer + (buffer + len - 1 - a)

-- The outer `i` characters on either side are exchanged.
abbrev Turned : (buffer len : ℕ) → Mem → ℕ → Mem → Type 0
Turned buffer len m i t =
    (a : ℕ)
    → t a ≡ (
        if in_area buffer len a && (ltb a (buffer + i) || leb (buffer + len) (a + i))
        then m (mirror buffer len a)
        else m a)

swap-Turned :
    (buffer len i : ℕ) (m t : Mem)
    → i < len / 2
    → Turned buffer len m i t
    → Turned buffer len m (suc i) (swap buffer len i t)
swap-Turned buffer len i m t h e a = ground (arith, e a, e (buffer + i), e (buffer + len - i - 1))

-- `reverse` turns the text at `buffer` round and leaves all other memory as it was.
pub reverse-mirror :
    (buffer len : ℕ) (m : Mem) (a : ℕ)
    → reverse buffer len m a ≡ (if in_area buffer len a then m (mirror buffer len a) else m a)
unfolding reverse
reverse-mirror buffer len m a =
    let turned =
      for_loop-invariant (Turned buffer len m) (len / 2) 0 (swap buffer len) m
        (λ i t l h e. swap-Turned buffer len i m t (omega arith) e) (λ b. ground arith) in
    elim (Bool-cases (a + a + 1 == buffer + buffer + len)) [
      | inl middle ↦
          let e : mirror buffer len a ≡ a = ground arith in rw e (ground (arith, turned a))
      | inr side ↦ ground (arith, turned a)
    ]
