-- ===== src/Print/Format.antt =====
-- libs/printk.c: formatted text. A format is the list of its bytes. The arguments are what `va_arg` finds,
-- one behind the other, whether they were passed or not; a string is an address. `bf` is the address of the
-- array of 24 bytes for a number. A string whose end is not found is a fault.
pub mod Inside
use ucas_operating_system_la.Base.{
  ℕ, zero, suc, ◌+◌, ◌-◌, ◌%◌, ◌^◌, Bool, true, false, ◌&&◌, ◌||◌, ◌==◌, leb, if◌then◌else◌, Option,
  none, some, List, [], ◌∷◌, length, put,
}
use ucas_operating_system_la.Strings.{Mem, strlen}
use ucas_operating_system_la.Screen.{Screen, screen_write}
use ucas_operating_system_la.Print.{mini_itoa, MiniBuff, putc, puts}

-- What stands behind a `%`: the padding, the character, and the rest of the format; nothing if the format
-- ends there. The character behind a `0` is skipped, also if it is no digit.
pub directive : List ℕ → Option (ℕ × ℕ × List ℕ)
directive [] = none
directive (c ∷ []) = if c == 48 then none else some (0, c, [])
directive (c ∷ d ∷ []) = if c == 48 then none else some (0, c, d ∷ [])
directive (c ∷ d ∷ e ∷ rest) =
    if c == 48
    then some (if leb 48 d && leb d 57 then d - 48 else 0, e, rest)
    else some (0, c, d ∷ e ∷ rest)

-- `mini_itoa(va_arg(va, unsigned int), …, bf, zero_pad)` and `_puts(bf, len, &b)`
pub put_number :
    (bf radix : ℕ) (uppercase unsig : Bool) (value zero_pad : ℕ)
    → MiniBuff
    → Mem
    → ℕ × MiniBuff × Mem
put_number bf radix uppercase unsig value zero_pad b m =
    let (len, m') = mini_itoa (value % 2 ^ 32) radix uppercase unsig bf zero_pad m in
    puts bf len b m'

-- The result of `_putc` or `_puts` is dropped; whether an argument is taken is noted.
abbrev pub noted : Bool → ℕ × MiniBuff × Mem → Bool × MiniBuff × Mem
noted taken (len, b, m) = (taken, b, m)

abbrev put_text : Option ℕ → (s : ℕ) → MiniBuff → Mem → Option (Bool × MiniBuff × Mem)
put_text none s b m = none
put_text (some len) s b m = some (noted true (puts s len b m))

-- The `switch`: whether the argument is taken, the buffer and the memory.
pub put_directive : (bf zero_pad ch value : ℕ) → MiniBuff → Mem → Option (Bool × MiniBuff × Mem)
unfolding put_number
put_directive bf zero_pad ch value b m =
    if ch == 117 || ch == 100
    then some (noted true (put_number bf 10 false (ch == 117) value zero_pad b m))
    else if ch == 120 || ch == 88
    then some (noted true (put_number bf 16 (ch == 88) true value zero_pad b m))
    else if ch == 99
    then some (noted true (putc (value % 256) b m))
    else if ch == 115
    then put_text (strlen m value) value b m
    else some (noted false (putc ch b m))

-- `(unsigned int)((b.pbuffer - b.buffer) + 1) >= b.buffer_len`
abbrev pub is_full : MiniBuff → Bool
is_full b = leb b.buffer_len ((b.pbuffer - b.buffer + 1) % 2 ^ 32)

-- One pass of the loop, which `again` goes on from the rest of the format and the next argument.
abbrev pub after_directive :
    (again : List ℕ → ℕ → MiniBuff → Mem → Option (MiniBuff × Mem)) (bf : ℕ) (args : ℕ → ℕ)
    → Option (ℕ × ℕ × List ℕ)
    → (k : ℕ) → MiniBuff
    → Mem
    → Option (MiniBuff × Mem)
after_directive again bf args none k b m = some (b, m)
after_directive again bf args (some (zero_pad, ch, rest)) k b m =
    elim (put_directive bf zero_pad ch (args k) b m) [
      | none ↦ none
      | some (taken, b', m') ↦ again rest (if taken then suc k else k) b' m'
    ]

-- The loop over the format, from the argument `k` on. Each pass shortens the format.
pub format_from :
    ℕ → (bf : ℕ) (args : ℕ → ℕ) → List ℕ → (k : ℕ) → MiniBuff → Mem → Option (MiniBuff × Mem)
unfolding directive put_directive
format_from zero bf args fmt k b m = none
format_from (suc n) bf args [] k b m = some (b, m)
format_from (suc n) bf args (c ∷ cs) k b m =
    if is_full b
    then some (b, m)
    else if c == 37
    then after_directive (λ f. format_from n bf args f) bf args (directive cs) k b m
    else (let (done, b', m') = putc c b m in format_from n bf args cs k b' m')

abbrev text_length : Option (MiniBuff × Mem) → Option (ℕ × Mem)
text_length none = none
text_length (some (b, m)) = some (b.pbuffer - b.buffer, m)

pub mini_vsnprintf :
    (buffer buffer_len : ℕ) (fmt : List ℕ) (args : ℕ → ℕ) (bf : ℕ) → Mem → Option (ℕ × Mem)
unfolding format_from
mini_vsnprintf buffer buffer_len fmt args bf m = text_length (
    format_from (suc (length fmt)) bf args fmt 0
      (record { buffer = buffer; pbuffer = buffer; buffer_len = buffer_len }) m)

module _ {S : Type 0} (write : (text : ℕ) → Mem → S → Option S) where
  abbrev written : ℕ → ℕ → Mem → Option S → Option (ℕ × Mem × S)
  written buff ret m none = none
  written buff ret m (some s) = some (ret, m, s)

  abbrev ended : ℕ → Option (ℕ × Mem) → S → Option (ℕ × Mem × S)
  ended buff none s = none
  ended buff (some (ret, m)) s =
      let m' : Mem = put m (buff + ret) 0 in written buff ret m' (write buff m' s)

  -- What `printk`, `printf` and `kprintf` have in common: the text in the array `buff`, to which `write`
  -- is applied.
  pub print_to : (buff bf : ℕ) (fmt : List ℕ) (args : ℕ → ℕ) → Mem → S → Option (ℕ × Mem × S)
  unfolding mini_vsnprintf
  print_to buff bf fmt args m s = ended buff (mini_vsnprintf buff 256 fmt args bf m) s

-- The serial port is a parameter, and so is the system call of a user's process.
pub printk :
    {S : Type 0} (port_write : (text : ℕ) → Mem → S → Option S) (buff bf : ℕ) (fmt : List ℕ)
    (args : ℕ → ℕ)
    → Mem
    → S
    → Option (ℕ × Mem × S)
unfolding print_to
printk port_write buff bf fmt args m s = print_to port_write buff bf fmt args m s

pub printf :
    {S : Type 0} (sys_write : (text : ℕ) → Mem → S → Option S) (buff bf : ℕ) (fmt : List ℕ)
    (args : ℕ → ℕ)
    → Mem
    → S
    → Option (ℕ × Mem × S)
unfolding print_to
printf sys_write buff bf fmt args m s = print_to sys_write buff bf fmt args m s

-- The characters of a string of the length `n`.
abbrev chars_at : (n s : ℕ) → Mem → List ℕ
chars_at zero s m = []
chars_at (suc n) s m = m s ∷ chars_at n (suc s) m

abbrev write_screen : (text : ℕ) → Mem → Screen → Option Screen
write_screen text m s = elim (strlen m text) [
  | none ↦ none
  | some n ↦ some (screen_write (chars_at n text m) s)
]

pub kprintf : (buff bf : ℕ) (fmt : List ℕ) (args : ℕ → ℕ) → Mem → Screen → Option (ℕ × Mem × Screen)
unfolding print_to
kprintf buff bf fmt args m s = print_to write_screen buff bf fmt args m s
