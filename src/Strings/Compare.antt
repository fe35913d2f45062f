-- ===== src/Strings/Compare.antt =====
-- What the comparisons of libs/string.c decide.
use ucas_operating_system_la.Base.{
  ℕ, zero, suc, ◌+◌, ◌-◌, ◌≤◌, ◌<◌, ◌≡◌, refl, ap, ◌⊎◌, ◌↔◌, arith, some, ◌==◌, ltb, Bool-cases,
  inl, inr, ==_iff,
}
use ucas_operating_system_la.Strings.{Mem, equal, compare_from, strcmp, strcpy, max_string, max}
use ucas_operating_system_la.Strings.Copy.{IsString, strlen-IsString, strcpy-copies}

-- Every cell holds a byte.
abbrev pub IsBytes : Mem → Type 0
IsBytes m = (a : ℕ) → m a < 256

compare_from-equal :
    (n i : ℕ) (m : Mem) (p q : ℕ)
    → IsBytes m
    → compare_from n m p q i ≡ equal
    → (j : ℕ) → i ≤ j
    → j < i + n
    → m (p + j) ≡ m (q + j)
unfolding compare_from
compare_from-equal zero i m p q b e j l h = absurd (omega arith)
compare_from-equal (suc n) i m p q b e j l h =
    let first : m (p + i) ≡ m (q + i) = ground (arith, b (p + i), b (q + i)) in
    elim (Bool-cases (i == j)) [
      | inl same ↦ rw (← (==_iff i j).0 same) first
      | inr d ↦
          compare_from-equal n (suc i) m p q b (ground (arith, b (p + i), b (q + i))) j
            (ground arith) (omega arith)
    ]

compare_from-same :
    (n i : ℕ) (m : Mem) (p q : ℕ)
    → ((j : ℕ) → i ≤ j → j < i + n → m (p + j) ≡ m (q + j))
    → compare_from n m p q i ≡ equal
unfolding compare_from
compare_from-same zero i m p q same = refl
compare_from-same (suc n) i m p q same = ground (
  arith,
  same i (omega arith) (omega arith),
  compare_from-same n (suc i) m p q (λ j l h. same j (omega arith) (omega arith)),
)

-- The characters of the two strings are the same.
abbrev pub SameChars : Mem → ℕ → ℕ → ℕ → Type 0
SameChars m p q n = (j : ℕ) → j < n → m (p + j) ≡ m (q + j)

same-length :
    (m : Mem) (p q n k : ℕ)
    → IsString m p n
    → IsString m q k
    → ((j : ℕ) → j < max n k → m (p + j) ≡ m (q + j))
    → n ≡ k
same-length m p q n k s t same = elim (Bool-cases (n == k)) [
  | inl e ↦ (==_iff n k).0 e
  | inr d ↦ elim (Bool-cases (ltb n k)) [
    | inl l ↦ absurd (t.chars n (ground arith) (ground (arith, same n (ground arith), s.end)))
    | inr g ↦ absurd (s.chars k (ground arith) (ground (arith, same k (ground arith), t.end)))
  ]
]

-- For two strings of bytes shorter than the scan's bound, strcmp answers 0 exactly when their
-- lengths and their characters are the same.
pub strcmp-equal :
    (m : Mem) (p q n k : ℕ)
    → IsBytes m
    → IsString m p n
    → IsString m q k
    → n < max_string
    → k < max_string
    → (strcmp m p q ≡ some equal) ↔ ((n ≡ k) × SameChars m p q n)
unfolding strcmp
strcmp-equal m p q n k b s t hn hk =
    rw (strlen-IsString m p n s hn, strlen-IsString m q k t hk)
      (
        λ e.
            let all = compare_from-equal (max n k) 0 m p q b (ground arith) in
            let same : (j : ℕ) → j < max n k → m (p + j) ≡ m (q + j) =
              λ j h. all j (omega arith) (omega arith) in
            (same-length m p q n k s t same, λ j h. same j (ground arith)),
        λ (e, same). ap some (compare_from-same (max n k) 0 m p q (λ j l h. same j (ground arith))),
      )

-- A string of bytes shorter than the scan's bound that strcpy copies to an area that does not
-- overlap it compares equal to the original.
pub strcmp-strcpy :
    (m : Mem) (dest src n : ℕ)
    → IsBytes m
    → IsString m src n
    → n < max_string
    → (dest + n < src) ⊎ (src + n < dest)
    → (m' : Mem) × (strcpy dest src m ≡ some m') × (strcmp m' dest src ≡ some equal)
strcmp-strcpy m dest src n b s h apart =
    let (m', run, same) = strcpy-copies dest src n m s h (ground arith) in
    let from : (i : ℕ) → i < suc n → m' (src + i) ≡ m (src + i) =
      λ i l. ground (arith, same (src + i)) in
    let to : (i : ℕ) → i < suc n → m' (dest + i) ≡ m (src + i) = λ i l.
      let e : dest + i - dest ≡ i = omega arith in
      let w = same (dest + i) in let w' = rw e at w in ground (arith, w') in
    let old : IsString m' src n = record {
      chars = λ i l z. s.chars i l (ground (arith, from i (omega arith)));
      end = ground (arith, from n (omega arith), s.end);
    } in
    let new : IsString m' dest n = record {
      chars = λ i l z. s.chars i l (ground (arith, to i (omega arith)));
      end = ground (arith, to n (omega arith), s.end);
    } in
    let bytes : IsBytes m' = λ a. ground (arith, same a, b a, b (src + (a - dest))) in
    (
      m',
      run,
      (strcmp-equal m' dest src n n bytes new old h h).1
          (refl, λ j l. ground (arith, from j (omega arith), to j (omega arith))),
    )
