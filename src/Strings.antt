-- ===== src/Strings.antt =====
-- libs/string.c over a byte-addressed memory. A byte is a number below 256; `char` is signed, so two
-- characters compare as their bytes do after a shift by 128. A scan for the end of a string has fuel,
-- and is a fault when it is used up. A value of type `int` is kept below 2 ^ 32, as its bits.
pub mod Copy
pub mod Compare
use ucas_operating_system_la.Base.{
  ℕ, zero, suc, ◌+◌, ◌-◌, ◌*◌, ◌%◌, ◌^◌, Bool, true, false, ◌&&◌, ◌||◌, Option, none, some, ◌==◌,
  ltb, leb, if◌then◌else◌, put,
}

abbrev pub Mem : Type 0
Mem = ℕ → ℕ

-- The fuel of a scan: longer than any string here.
abbrev pub max_string : ℕ
max_string = 4096

-- `for (i = …; src[i] != '\0'; i++)`
pub strlen_from : ℕ → Mem → ℕ → ℕ → Option ℕ
strlen_from zero m src i = none
strlen_from (suc n) m src i = if m (src + i) == 0 then some i else strlen_from n m src (suc i)

pub strlen : Mem → ℕ → Option ℕ
unfolding strlen_from
strlen m src = strlen_from max_string m src 0

pub memcpy : (dest src len : ℕ) → Mem → Mem
memcpy dest src zero m = m
memcpy dest src (suc len) m = memcpy (suc dest) (suc src) len (put m dest (m src))

pub memset : (dest val len : ℕ) → Mem → Mem
memset dest val zero m = m
memset dest val (suc len) m = memset (suc dest) val len (put m dest (val % 256))

pub bzero : (dest len : ℕ) → Mem → Mem
unfolding memset
bzero dest len m = memset dest 0 len m

-- The results 1, -1 and 0 of a comparison.
pub data Comparison : Type 0 where
  greater less equal : Comparison

-- `a < b` for two characters.
abbrev pub char_ltb : ℕ → ℕ → Bool
char_ltb a b = ltb ((a + 128) % 256) ((b + 128) % 256)

-- The loop of `memcmp` from an index on, and that of `strcmp`, for `n` more characters.
pub compare_from : ℕ → Mem → (str1 str2 i : ℕ) → Comparison
compare_from zero m str1 str2 i = equal
compare_from (suc n) m str1 str2 i =
    let rest = compare_from n m str1 str2 (suc i) in
    if char_ltb (m (str2 + i)) (m (str1 + i))
    then greater
    else if char_ltb (m (str1 + i)) (m (str2 + i))
    then less
    else rest

abbrev pub max : ℕ → ℕ → ℕ
max a b = if ltb a b then b else a

-- The loop of `strcmp` runs while `i < l1 || i < l2`.
abbrev strcmp_with : Option ℕ → Option ℕ → Mem → (str1 str2 : ℕ) → Option Comparison
strcmp_with (some l1) (some l2) m str1 str2 = some (compare_from (max l1 l2) m str1 str2 0)
strcmp_with _ _ m str1 str2 = none

pub strcmp : Mem → (str1 str2 : ℕ) → Option Comparison
unfolding strlen compare_from
strcmp m str1 str2 = strcmp_with (strlen m str1) (strlen m str2) m str1 str2

pub memcmp : Mem → (str1 str2 size : ℕ) → Comparison
unfolding compare_from
memcmp m str1 str2 size = compare_from size m str1 str2 0

abbrev strcpy_with : Option ℕ → (dest src : ℕ) → Mem → Option Mem
unfolding memcpy
strcpy_with none dest src m = none
strcpy_with (some l) dest src m = some (put (memcpy dest src l m) (dest + l) 0)

-- The loop over `dest[i] = src[i]` is that of `memcpy`.
pub strcpy : (dest src : ℕ) → Mem → Option Mem
unfolding strlen memcpy
strcpy dest src m = strcpy_with (strlen m src) dest src m

-- The value of a digit in each base, if it is one. The digits of base 16 have two cases.
abbrev between : ℕ → ℕ → ℕ → Bool
between lo hi c = leb lo c && leb c hi

abbrev pub dec_digit : ℕ → Option ℕ
dec_digit c = if between 48 57 c then some (c - 48) else none

abbrev pub oct_digit : ℕ → Option ℕ
oct_digit c = if between 48 55 c then some (c - 48) else none

abbrev pub hex_digit : ℕ → Option ℕ
hex_digit c =
    if between 48 57 c
    then some (c - 48)
    else if between 97 102 c
    then some (c - 97 + 10)
    else if between 65 70 c
    then some (c - 65 + 10)
    else none

-- The loop of `atoi_dec`, `atoi_oct` and `atoi_hex`: it ends at the first character that is no digit,
-- which the end of the string is.
unfoldable pub atoi_loop : ℕ → (base : ℕ) → (ℕ → Option ℕ) → Mem → (str ans : ℕ) → Option ℕ
atoi_loop zero base digit m str ans = none
atoi_loop (suc n) base digit m str ans = elim (digit (m str)) [
  | none ↦ some ans
  | some d ↦ atoi_loop n base digit m (suc str) ((ans * base + d) % 2 ^ 32)
]

unfoldable pub atoi : Mem → ℕ → Option ℕ
atoi m str =
    if m str == 48 && (m (str + 1) == 120 || m (str + 1) == 88)
    then atoi_loop max_string 16 hex_digit m (str + 2) 0
    else if m str == 48
    then atoi_loop max_string 8 oct_digit m (str + 1) 0
    else atoi_loop max_string 10 dec_digit m str 0
