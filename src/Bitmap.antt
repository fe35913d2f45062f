-- ===== src/Bitmap.antt =====
-- libs/bitmap.c: bitmaps of 32-bit words. The operations `&`, `|`, `& ~` and `^` with `1 << offset` are
-- written out on the binary digits of the word, by recursion on the offset.
pub mod Check
use ucas_operating_system_la.Base.{
  ℕ, zero, suc, ◌+◌, ◌-◌, ◌*◌, ◌/◌, ◌%◌, Bool, ◌==◌, if◌then◌else◌, put, fill,
}

-- `(w & (1 << offset)) != 0`
unfoldable pub test_bit : ℕ → ℕ → Bool
test_bit w zero = w % 2 == 1
test_bit w (suc offset) = test_bit (w / 2) offset

-- `w | (1 << offset)`
pub or_bit : ℕ → ℕ → ℕ
or_bit w zero = w / 2 * 2 + 1
or_bit w (suc offset) = or_bit (w / 2) offset * 2 + w % 2

-- `w & ~(1 << offset)`
pub and_not_bit : ℕ → ℕ → ℕ
and_not_bit w zero = w / 2 * 2
and_not_bit w (suc offset) = and_not_bit (w / 2) offset * 2 + w % 2

-- `w ^ (1 << offset)`
pub xor_bit : ℕ → ℕ → ℕ
xor_bit w zero = w / 2 * 2 + (1 - w % 2)
xor_bit w (suc offset) = xor_bit (w / 2) offset * 2 + w % 2

-- The words of a bitmap, `uint32_t * array_32`.
abbrev pub Words : Type 0
Words = ℕ → ℕ

-- For a number of bytes that fills whole words, as the sizes of the callers do.
pub bitmap_init_byte : Words → ℕ → ℕ × Words
bitmap_init_byte bitmap size_byte = (size_byte, fill (size_byte / 4) 0 bitmap)

pub bitmap_init : Words → ℕ → ℕ × Words
bitmap_init bitmap size = (size / 8, fill (size / 8 / 4) 0 bitmap)

unfoldable pub bitmap_check : Words → ℕ → Bool
unfolding test_bit
bitmap_check bitmap id = test_bit (bitmap (id / 32)) (id % 32)

pub bitmap_set : Words → ℕ → Words
unfolding or_bit
bitmap_set bitmap id = put bitmap (id / 32) (or_bit (bitmap (id / 32)) (id % 32))

pub bitmap_clear : Words → ℕ → Words
unfolding and_not_bit
bitmap_clear bitmap id = put bitmap (id / 32) (and_not_bit (bitmap (id / 32)) (id % 32))

pub bitmap_reverse : Words → ℕ → Words
unfolding xor_bit
bitmap_reverse bitmap id = put bitmap (id / 32) (xor_bit (bitmap (id / 32)) (id % 32))

pub bitmap_assign : Words → ℕ → (value : ℕ) → Words
unfolding or_bit and_not_bit
bitmap_assign bitmap id value =
    if value == 0
    then put bitmap (id / 32) (and_not_bit (bitmap (id / 32)) (id % 32))
    else put bitmap (id / 32) (or_bit (bitmap (id / 32)) (id % 32))
