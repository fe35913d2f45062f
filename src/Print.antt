-- ===== src/Print.antt =====
-- libs/printk.c: formatting numbers, and the bounded buffer that the formatted text goes to. A buffer is
-- a part of a byte-addressed memory; a value of type `int` is its 32 bits, negative from 2 ^ 31 on.
pub mod Digits
pub mod Reverse
pub mod RoundTrip
pub mod Bounds
pub mod Number
pub mod Format
use ucas_operating_system_la.Base.{
  ℕ, zero, suc, ◌+◌, ◌-◌, ◌*◌, ◌/◌, ◌%◌, ◌^◌, Bool, true, false, bnot, ◌&&◌, ◌||◌, ◌==◌, ltb, leb,
  if◌then◌else◌, put, for_loop, Option, none, some,
}
use ucas_operating_system_la.Strings.{Mem}

-- The character of a digit.
abbrev pub digit_char : (uppercase : Bool) → ℕ → ℕ
digit_char uppercase digit =
    if ltb digit 10 then 48 + digit else (if uppercase then 65 else 97) + digit - 10

-- `do { … } while (value > 0);` from the place `p` on: the digits, the lowest first, and the place behind
-- them. The loop has fuel: a value of 32 bits has at most 32 digits in a base from 2 on.
pub digits_from : ℕ → (radix : ℕ) → (uppercase : Bool) → (value p : ℕ) → Mem → ℕ × Mem
digits_from zero radix uppercase value p m = (p, m)
digits_from (suc n) radix uppercase value p m =
    let m' : Mem = put m p (digit_char uppercase (value % radix)) in
    let rest = digits_from n radix uppercase (value / radix) (suc p) m' in
    if value / radix == 0 then (suc p, m') else rest

-- One swap of the loop that turns the text round.
abbrev pub swap : (buffer len i : ℕ) → Mem → Mem
swap buffer len i m =
    put (put m (buffer + i) (m (buffer + len - i - 1))) (buffer + len - i - 1) (m (buffer + i))

pub reverse : (buffer len : ℕ) → Mem → Mem
reverse buffer len m = for_loop (len / 2) 0 (swap buffer len) m

-- `for (i = pbuffer - buffer; i < zero_pad; i++) *(pbuffer++) = '0';`, then the sign and the end.
pub pad_from : ℕ → (p : ℕ) → Mem → ℕ × Mem
pad_from zero p m = (p, m)
pad_from (suc n) p m = pad_from n (suc p) (put m p 48)

abbrev pub sign : Bool → ℕ × Mem → ℕ × Mem
sign negative (p, m) = if negative then (suc p, put m p 45) else (p, m)

abbrev pub finish : (buffer : ℕ) → ℕ × Mem → ℕ × Mem
finish buffer (p, m) = (p - buffer, reverse buffer (p - buffer) (put m p 0))

pub mini_itoa : (value radix : ℕ) (uppercase unsig : Bool) (buffer zero_pad : ℕ) → Mem → ℕ × Mem
unfolding digits_from reverse pad_from
mini_itoa value radix uppercase unsig buffer zero_pad m =
    if ltb 16 radix
    then (0, m)
    else (let negative : Bool = leb (2 ^ 31) value && bnot unsig in
        let magnitude : ℕ = if negative then 2 ^ 32 - value else value in
        let (p, m') = digits_from 32 radix uppercase magnitude buffer m in
        finish buffer (sign negative (pad_from (zero_pad - (p - buffer)) p m')))

-- `struct mini_buff`
pub record MiniBuff : Type 0 where
  pub buffer : ℕ
  pub pbuffer : ℕ
  pub buffer_len : ℕ

-- `_putc` and `_puts`. The room that is left is a signed difference of 64 bits, and is cut to 32 bits
-- when it becomes the length.
pub putc : (ch : ℕ) → MiniBuff → Mem → ℕ × MiniBuff × Mem
putc ch b m =
    if leb b.buffer_len ((b.pbuffer - b.buffer + 1) % 2 ^ 32)
    then (0, b, m)
    else (1, record b { pbuffer = b.pbuffer + 1 }, put (put m b.pbuffer ch) (b.pbuffer + 1) 0)

pub puts : (s len : ℕ) → MiniBuff → Mem → ℕ × MiniBuff × Mem
puts s len b m =
    let used : ℕ = b.pbuffer - b.buffer in
    let len' : ℕ =
      if leb (used + 1 + len) b.buffer_len
      then len
      else (b.buffer_len + 2 ^ 32 - used - 1) % 2 ^ 32 in
    let m' : Mem = for_loop len' 0 (λ i t. put t (b.pbuffer + i) (t (s + i))) m in
    (len', record b { pbuffer = b.pbuffer + len' }, put m' (b.pbuffer + len') 0)
