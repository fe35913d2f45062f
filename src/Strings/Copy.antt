-- ===== src/Strings/Copy.antt =====
-- What the copying functions of libs/string.c leave in memory.
use ucas_operating_system_la.Base.{
  ℕ, zero, suc, ◌+◌, ◌-◌, ◌%◌, ◌≤◌, Bool, Bool-cases, inl, inr, ==_iff, ==_ne, ◌&&◌, leb, ltb, ◌<◌,
  ◌≡◌, ◌≢◌, refl, ◌⊎◌, arith, some, put, ◌==◌, if◌then◌else◌,
}
use ucas_operating_system_la.Strings.{Mem, strlen, strlen_from, memcpy, memset, strcpy, max_string}

-- The string at `src` has `n` characters before its end.
pub record IsString (m : Mem) (src n : ℕ) : Type 0 where
  pub chars : (i : ℕ) → i < n → m (src + i) ≢ 0
  pub end : m (src + n) ≡ 0

strlen_from-IsString :
    (fuel i n : ℕ) (m : Mem) (src : ℕ)
    → IsString m src n
    → i ≤ n
    → n < i + fuel
    → strlen_from fuel m src i ≡ some n
unfolding strlen_from
strlen_from-IsString zero i n m src s l h = absurd (omega arith)
strlen_from-IsString (suc f) i n m src s l h = elim (Bool-cases (i == n)) [
  | inl e ↦ rw ((==_iff i n).0 e, s.end) refl
  | inr d ↦
      rw (==_ne (m (src + i)) 0 (s.chars i (ground arith)))
        (strlen_from-IsString f (suc i) n m src s (ground arith) (omega arith))
]

-- `strlen` finds the end of every string that is shorter than the scan's bound.
pub strlen-IsString :
    (m : Mem) (src n : ℕ) → IsString m src n → n < max_string → strlen m src ≡ some n
unfolding strlen
strlen-IsString m src n s h =
    strlen_from-IsString max_string 0 n m src s (omega arith) (omega arith)

-- The address is in the area of `len` bytes at `p`.
abbrev pub in_area : ℕ → ℕ → ℕ → Bool
in_area p len a = leb p a && ltb a (p + len)

-- A copy upwards reads no byte that it has written.
abbrev pub Apart : ℕ → ℕ → ℕ → Type 0
Apart dest src len = (dest ≤ src) ⊎ (src + len ≤ dest)

-- memcpy copies the source area to the destination and changes no other byte, when the areas do not
-- overlap or the destination is the lower one.
pub memcpy_lem :
    (dest src len : ℕ) (m : Mem) (a : ℕ)
    → Apart dest src len
    → memcpy dest src len m a ≡ (if in_area dest len a then m (src + (a - dest)) else m a)
unfolding memcpy
memcpy_lem dest src zero m a h = ground arith
memcpy_lem dest src (suc len) m a h =
    ground (arith, memcpy_lem (suc dest) (suc src) len (put m dest (m src)) a (ground arith))

-- `memset` gives every byte of the area the value and changes no other.
pub memset_lem :
    (dest val len : ℕ) (m : Mem) (a : ℕ)
    → memset dest val len m a ≡ (if in_area dest len a then val % 256 else m a)
unfolding memset
memset_lem dest val zero m a = ground arith
memset_lem dest val (suc len) m a =
    ground (arith, memset_lem (suc dest) val len (put m dest (val % 256)) a)

-- The memory that `strcpy` leaves.
abbrev pub Copied : ℕ → ℕ → ℕ → Mem → Mem → Type 0
Copied dest src n m m' =
    (a : ℕ) → m' a ≡ (if in_area dest (suc n) a then m (src + (a - dest)) else m a)

-- `strcpy` of a string below the scan's bound ends, copies it with its end, and changes no other byte,
-- when the destination is the lower area or the areas do not overlap.
pub strcpy-copies :
    (dest src n : ℕ) (m : Mem)
    → IsString m src n
    → n < max_string
    → Apart dest src (suc n)
    → (m' : Mem) × (strcpy dest src m ≡ some m') × Copied dest src n m m'
unfolding strcpy
strcpy-copies dest src n m s h apart = (
  put (memcpy dest src n m) (dest + n) 0,
  rw (strlen-IsString m src n s h) refl,
  λ a. ground (arith, memcpy_lem dest src n m a (ground arith), s.end),
)
