-- ===== src/Fs/Bytes.antt =====
-- Bytes within the words of a block.
use ucas_operating_system_la.Base.{
  ℕ, zero, suc, ◌+◌, ◌*◌, ◌/◌, ◌%◌, ◌^◌, ◌<◌, ◌≡◌, arith, ◌==◌, if◌then◌else◌,
}
use ucas_operating_system_la.Bitmap.{Words}
use ucas_operating_system_la.Fs.{get_byte, put_byte}

-- The word `x` with its byte `i` replaced.
abbrev put_in : ℕ → ℕ → ℕ → ℕ
put_in x i v = x / 256 ^ (i + 1) * 256 ^ (i + 1) + v % 256 * 256 ^ i + x % 256 ^ i

abbrev get_in : ℕ → ℕ → ℕ
get_in x i = x / 256 ^ i % 256

get_in-put_in :
    (x i j v : ℕ)
    → i < 4
    → j < 4
    → get_in (put_in x i v) j ≡ (if j == i then v % 256 else get_in x j)
get_in-put_in x zero zero v h l = omega arith
get_in-put_in x zero (suc zero) v h l = omega arith
get_in-put_in x zero (suc (suc zero)) v h l = omega arith
get_in-put_in x zero (suc (suc (suc zero))) v h l = omega arith
get_in-put_in x (suc zero) zero v h l = omega arith
get_in-put_in x (suc zero) (suc zero) v h l = omega arith
get_in-put_in x (suc zero) (suc (suc zero)) v h l = omega arith
get_in-put_in x (suc zero) (suc (suc (suc zero))) v h l = omega arith
get_in-put_in x (suc (suc zero)) zero v h l = omega arith
get_in-put_in x (suc (suc zero)) (suc zero) v h l = omega arith
get_in-put_in x (suc (suc zero)) (suc (suc zero)) v h l = omega arith
get_in-put_in x (suc (suc zero)) (suc (suc (suc zero))) v h l = omega arith
get_in-put_in x (suc (suc (suc zero))) zero v h l = omega arith
get_in-put_in x (suc (suc (suc zero))) (suc zero) v h l = omega arith
get_in-put_in x (suc (suc (suc zero))) (suc (suc zero)) v h l = omega arith
get_in-put_in x (suc (suc (suc zero))) (suc (suc (suc zero))) v h l = omega arith
get_in-put_in x (suc (suc (suc (suc i)))) j v h l = absurd (omega (arith, h))
get_in-put_in x i (suc (suc (suc (suc j)))) v h l = absurd (omega (arith, l))

pub get_byte-put_byte :
    (w : Words) (k v j : ℕ)
    → get_byte (put_byte w k v) j ≡ (if j == k then v % 256 else get_byte w j)
unfolding get_byte put_byte
get_byte-put_byte w k v j = ground (arith, get_in-put_in (w (k / 4)) (k % 4) (j % 4) v)
