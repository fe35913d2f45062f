-- ===== src/Bitmap/Check.antt =====
-- What the operations of libs/bitmap.c do to the bits that `bitmap_check` reads.
use ucas_operating_system_la.Base.{
  ℕ, zero, suc, ◌+◌, ◌-◌, ◌*◌, ◌/◌, ◌%◌, ◌≡◌, refl, Bool, true, false, bnot, ◌==◌, if◌then◌else◌,
  arith, Bool-cases, inl, inr, put, ==_iff, ==_refl,
}
use ucas_operating_system_la.Bitmap.{
  Words, test_bit, or_bit, and_not_bit, xor_bit, bitmap_check, bitmap_set, bitmap_clear,
  bitmap_reverse, bitmap_assign,
}

test_bit-or_bit : (w i j : ℕ) → test_bit (or_bit w i) j ≡ (if i == j then true else test_bit w j)
unfolding test_bit or_bit
test_bit-or_bit w zero zero = ground arith
test_bit-or_bit w zero (suc j) =
    let e : (w / 2 * 2 + 1) / 2 ≡ w / 2 = omega arith in rw e (ground arith)
test_bit-or_bit w (suc i) zero = ground arith
test_bit-or_bit w (suc i) (suc j) =
    let e : (or_bit (w / 2) i * 2 + w % 2) / 2 ≡ or_bit (w / 2) i = omega arith in
    rw e (ground (arith, test_bit-or_bit (w / 2) i j))

test_bit-and_not_bit :
    (w i j : ℕ) → test_bit (and_not_bit w i) j ≡ (if i == j then false else test_bit w j)
unfolding test_bit and_not_bit
test_bit-and_not_bit w zero zero = ground arith
test_bit-and_not_bit w zero (suc j) =
    let e : (w / 2 * 2) / 2 ≡ w / 2 = omega arith in rw e (ground arith)
test_bit-and_not_bit w (suc i) zero = ground arith
test_bit-and_not_bit w (suc i) (suc j) =
    let e : (and_not_bit (w / 2) i * 2 + w % 2) / 2 ≡ and_not_bit (w / 2) i = omega arith in
    rw e (ground (arith, test_bit-and_not_bit (w / 2) i j))

test_bit-xor_bit :
    (w i j : ℕ) → test_bit (xor_bit w i) j ≡ (if i == j then bnot (test_bit w j) else test_bit w j)
unfolding test_bit xor_bit
test_bit-xor_bit w zero zero = ground arith
test_bit-xor_bit w zero (suc j) =
    let e : (w / 2 * 2 + (1 - w % 2)) / 2 ≡ w / 2 = omega arith in rw e (ground arith)
test_bit-xor_bit w (suc i) zero = ground arith
test_bit-xor_bit w (suc i) (suc j) =
    let e : (xor_bit (w / 2) i * 2 + w % 2) / 2 ≡ xor_bit (w / 2) i = omega arith in
    rw e (ground (arith, test_bit-xor_bit (w / 2) i j))

-- What an operation makes of the bit `id`; the others are as before.
abbrev pub Updates : (Bool → Bool) → Words → ℕ → Words → Type 0
Updates new bitmap id bitmap' =
    (j : ℕ)
    → bitmap_check bitmap' j
      ≡ (if id == j then new (bitmap_check bitmap id) else bitmap_check bitmap j)

-- An operation on one word that changes the bit at an offset.
module _ (op : ℕ → ℕ → ℕ) (new : Bool → Bool)
    (law : (w i j : ℕ)
      → test_bit (op w i) j ≡ (if i == j then new (test_bit w j) else test_bit w j)) where
  word-Updates :
      (bitmap : Words) (id : ℕ)
      → Updates new bitmap id (put bitmap (id / 32) (op (bitmap (id / 32)) (id % 32)))
  unfolding bitmap_check
  word-Updates bitmap id j = elim (Bool-cases (id == j)) [
    | inl same ↦
        rw ((==_iff id j).0 same, ==_refl j, ==_refl (j / 32))
          (rw (law (bitmap (j / 32)) (j % 32) (j % 32), ==_refl (j % 32)) refl)
    | inr apart ↦ rw apart (ground (arith, law (bitmap (id / 32)) (id % 32) (j % 32)))
  ]

-- bitmap_set makes one bit 1, bitmap_clear makes it 0, bitmap_reverse changes it, and bitmap_assign
-- makes it 1 unless the value is 0; every other bit stays.
pub bitmap-Updates :
    (bitmap : Words) (id value : ℕ)
    → Updates (λ b. true) bitmap id (bitmap_set bitmap id)
      × Updates (λ b. false) bitmap id (bitmap_clear bitmap id)
      × Updates bnot bitmap id (bitmap_reverse bitmap id)
      × Updates (λ b. bnot (value == 0)) bitmap id (bitmap_assign bitmap id value)
unfolding bitmap_set bitmap_clear bitmap_reverse bitmap_assign
bitmap-Updates bitmap id value =
    let set = word-Updates or_bit (λ b. true) test_bit-or_bit bitmap id in
    let clear = word-Updates and_not_bit (λ b. false) test_bit-and_not_bit bitmap id in
    (
      set,
      clear,
      word-Updates xor_bit bnot test_bit-xor_bit bitmap id,
      elim (Bool-cases (value == 0)) [ inl z ↦ rw z clear | inr z ↦ rw z set ],
    )
