-- ===== src/Base/Lists.antt =====
-- Lists measured and indexed by native numbers, the view that the specifications take of C arrays
-- and of linked queues.
use Prim.Native.Nat.{ℕ, zero, suc, ◌+◌, ◌≤◌, ◌<◌}
use mathlib.Core.Path.{◌≡◌, refl}
use mathlib.Core.Logic.{◌≢◌, inl, inr}
use mathlib.Core.Bool.{Bool, true, false, ◌||◌}
use mathlib.Core.List.{List, [], ◌∷◌, ◌++◌}
use native.Mathlib.Omega.{arith}
use ucas_operating_system_la.Base.Tests.{◌==◌, if◌then◌else◌, Bool-cases}

module _ {ℓ} {A : Type ℓ} where
  abbrev pub length : List A → ℕ
  length [] = 0
  length (x ∷ xs) = suc (length xs)

  abbrev pub get_or : List A → ℕ → A → A
  get_or [] i d = d
  get_or (x ∷ xs) zero d = x
  get_or (x ∷ xs) (suc i) d = get_or xs i d

  pub length-append : (xs ys : List A) → length (xs ++ ys) ≡ length xs + length ys
  length-append [] ys = omega arith
  length-append (x ∷ xs) ys = omega (arith, length-append xs ys)

-- Membership as a Boolean, which the tactics split on.
abbrev pub has : ℕ → List ℕ → Bool
has a [] = false
has a (x ∷ xs) = (a == x) || has a xs

-- The list less the first occurrence of a value.
abbrev pub erase : ℕ → List ℕ → List ℕ
erase a [] = []
erase a (x ∷ xs) = if a == x then xs else x ∷ erase a xs

pub has-append : (a : ℕ) (xs ys : List ℕ) → has a (xs ++ ys) ≡ (has a xs || has a ys)
has-append a [] ys = refl
has-append a (x ∷ xs) ys = ground (arith, has-append a xs ys)

pub has_of_erase : (a b : ℕ) (xs : List ℕ) → has b (erase a xs) ≡ true → has b xs ≡ true
has_of_erase a b [] h = h
has_of_erase a b (x ∷ xs) h = ground (arith, has_of_erase a b xs)

pub has-erase_ne : (a b : ℕ) (xs : List ℕ) → a ≢ b → has b (erase a xs) ≡ has b xs
has-erase_ne a b [] h = refl
has-erase_ne a b (x ∷ xs) h = ground (arith, has-erase_ne a b xs h)

-- No value stands twice.
abbrev pub Distinct : List ℕ → Type 0
Distinct [] = Unit
Distinct (x ∷ xs) = (has x xs ≡ false) × Distinct xs

Distinct-erase : (a : ℕ) (xs : List ℕ) → Distinct xs → Distinct (erase a xs)
Distinct-erase a [] d = d
Distinct-erase a (x ∷ xs) d = ground (arith, Distinct-erase a xs d.1, has-erase_ne a x xs)

length-erase : (a : ℕ) (xs : List ℕ) → has a xs ≡ true → length xs ≡ suc (length (erase a xs))
length-erase a [] h = ground arith
length-erase a (x ∷ xs) h = ground (arith, length-erase a xs)

not-has-erase : (a : ℕ) (xs : List ℕ) → Distinct xs → has a (erase a xs) ≡ false
not-has-erase a [] d = refl
not-has-erase a (x ∷ xs) d = ground (arith, not-has-erase a xs d.1)

-- Distinct numbers from 1 to `n` are at most `n`.
pub length-le :
    (n : ℕ) (xs : List ℕ)
    → Distinct xs
    → ((a : ℕ) → has a xs ≡ true → (0 < a) × (a ≤ n))
    → length xs ≤ n
length-le zero [] d h = omega arith
length-le zero (x ∷ xs) d h = absurd (omega (arith, h x (ground arith)))
length-le (suc n) xs d h = elim (Bool-cases (has (suc n) xs)) [
  | inl i ↦
      let out = not-has-erase (suc n) xs d in
      omega (
        arith,
        length-erase (suc n) xs i,
        length-le n (erase (suc n) xs) (Distinct-erase (suc n) xs d)
            (λ a j. ground (arith, h a, has_of_erase (suc n) a xs)),
      )
  | inr i ↦ omega (arith, length-le n xs d (λ a j. ground (arith, h a)))
]
