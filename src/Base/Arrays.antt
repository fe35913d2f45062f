-- ===== src/Base/Arrays.antt =====
-- C arrays and structures in memory as maps from an index or an address: a write, and the loop that
-- gives the first `n` entries one value.
use Prim.Native.Nat.{ℕ, zero, suc, ◌+◌, ◌≤◌, ◌<◌}
use mathlib.Core.Path.{◌≡◌, refl}
use mathlib.Core.Logic.{◌≢◌}
use mathlib.Core.Option.{Option, none, some}
use mathlib.Core.Bool.{Bool, true, false}
use native.Mathlib.Omega.{arith}
use ucas_operating_system_la.Base.Tests.{◌==◌, ltb, if◌then◌else◌}

-- One entry replaced.
abbrev pub put {ℓ} : {A : Type ℓ} → (ℕ → A) → ℕ → A → ℕ → A
put f p v a = if a == p then v else f a

-- `for (i = 0; i < n; i++) f[i] = v;`
unfoldable pub fill {ℓ} : {A : Type ℓ} → ℕ → A → (ℕ → A) → ℕ → A
fill zero v f = f
fill (suc n) v f = put (fill n v f) n v

pub fill_lem {ℓ} :
    {A : Type ℓ} (n : ℕ) (v : A) (f : ℕ → A) (i : ℕ) → fill n v f i ≡ (if ltb i n then v else f i)
unfolding fill
fill_lem zero v f i = ground arith
fill_lem (suc n) v f i = ground (arith, fill_lem n v f i)

-- `for (i = lo; i < lo + n; i++) if (test(i)) return i;`
unfoldable pub find_from : (ℕ → Bool) → ℕ → ℕ → Option ℕ
find_from test lo zero = none
find_from test lo (suc n) =
    let rest = find_from test (suc lo) n in if test lo then some lo else rest

-- What such a search finds passes the test, and nothing before it does.
pub find_from-some :
    (test : ℕ → Bool) (lo n i : ℕ)
    → find_from test lo n ≡ some i
    → (lo ≤ i) × (suc i ≤ lo + n) × (test i ≡ true)
unfolding find_from
find_from-some test lo zero i h = ground arith
find_from-some test lo (suc n) i h = ground (arith, find_from-some test (suc lo) n i)

pub find_from-first :
    (test : ℕ → Bool) (lo n i j : ℕ)
    → find_from test lo n ≡ some i
    → lo ≤ j
    → j < i
    → test j ≡ false
unfolding find_from
find_from-first test lo zero i j h l u = ground arith
find_from-first test lo (suc n) i j h l u = ground (arith, find_from-first test (suc lo) n i j)

-- What it finds is not above an index that passes.
pub find_from-le :
    (test : ℕ → Bool) (n i j : ℕ) → find_from test 0 n ≡ some i → test j ≡ true → i ≤ j
find_from-le test n i j h t =
    let before : j < i → test j ≡ false = find_from-first test 0 n i j h (omega arith) in
    ground (arith, before)

-- A search that finds nothing has seen every index fail.
pub find_from-none :
    (test : ℕ → Bool) (lo n j : ℕ)
    → find_from test lo n ≡ none
    → lo ≤ j
    → j < lo + n
    → test j ≡ false
unfolding find_from
find_from-none test lo zero j h l u = ground arith
find_from-none test lo (suc n) j h l u = ground (arith, find_from-none test (suc lo) n j)

pub find_from-absent :
    (test : ℕ → Bool) (lo n : ℕ)
    → ((j : ℕ) → lo ≤ j → j < lo + n → test j ≡ false)
    → find_from test lo n ≡ none
unfolding find_from
find_from-absent test lo zero h = refl
find_from-absent test lo (suc n) h =
    ground
      (arith, h lo, find_from-absent test (suc lo) n (λ j l u. h j (omega arith) (omega arith)))

-- A search that one index only can end, ends there.
pub find_from-only :
    (test : ℕ → Bool) (lo n m : ℕ)
    → lo ≤ m
    → m < lo + n
    → test m ≡ true
    → ((j : ℕ) → lo ≤ j → j < lo + n → j ≢ m → test j ≡ false)
    → find_from test lo n ≡ some m
unfolding find_from
find_from-only test lo zero m l u t h = absurd (omega arith)
find_from-only test lo (suc n) m l u t h = ground (
  arith,
  h lo,
  λ (a : suc lo ≤ m).
      find_from-only test (suc lo) n m a (omega arith) t
        (λ j b c d. h j (omega arith) (omega arith) d),
)

-- `for (i = lo; i < lo + n; i++) s = body(i, s);`
unfoldable pub for_loop {ℓ} : {S : Type ℓ} → (n lo : ℕ) → (ℕ → S → S) → S → S
for_loop zero lo body s = s
for_loop (suc n) lo body s = for_loop n (suc lo) body (body lo s)

-- What each pass preserves holds at the end.
pub for_loop-invariant {ℓ ℓ'} :
    {S : Type ℓ} (P : ℕ → S → Type ℓ') (n lo : ℕ) (body : ℕ → S → S) (s : S)
    → ((i : ℕ) (t : S) → lo ≤ i → i < lo + n → P i t → P (suc i) (body i t))
    → P lo s
    → P (lo + n) (for_loop n lo body s)
unfolding for_loop
for_loop-invariant P zero lo body s step p = let e : lo + 0 ≡ lo = omega arith in rw e p
for_loop-invariant P (suc n) lo body s step p =
    let e : lo + suc n ≡ suc lo + n = omega arith in
    rw e (
      for_loop-invariant P n (suc lo) body (body lo s)
        (λ i t l h. step i t (omega arith) (omega arith)) (step lo s (omega arith) (omega arith) p))
