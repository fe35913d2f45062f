-- ===== src/Base/Run.antt =====
-- Commands over a store that may fault, and their total correctness: a run that returns, with a
-- postcondition on its result and its final store.
use mathlib.Core.Option.{Option, none, some}

-- `none` is a fault: a read or a write through NULL.
abbrev pub Cmd : Type 0 → Type 0 → Type 0
Cmd S A = S → Option (A × S)

module _ {S : Type 0} where
  abbrev pub pure : {A : Type 0} → A → Cmd S A
  pure a s = some (a, s)

  abbrev pub fault : {A : Type 0} → Cmd S A
  fault s = none

  abbrev pub and_then : {A B : Type 0} → Option (A × S) → (A → Cmd S B) → Option (B × S)
  and_then none k = none
  and_then (some (a, s)) k = k a s

  infixl 5 ◌>>=◌ ◌>>◌
  abbrev pub ◌>>=◌ : {A B : Type 0} → Cmd S A → (A → Cmd S B) → Cmd S B
  m >>= k = λ s. and_then (m s) k

  abbrev pub ◌>>◌ : {B : Type 0} → Cmd S (Unit {0}) → Cmd S B → Cmd S B
  m >> k = m >>= λ _. k

pub data Runs {S A : Type 0} (P : A → S → Type 0) : Option (A × S) → Type 0 where
  runs : {a : A} {s : S} → P a s → Runs P (some (a, s))

module _ {S A : Type 0} {P : A → S → Type 0} where
  pub bind :
      {B : Type 0} {Q : B → S → Type 0} {r : Option (A × S)} {k : A → Cmd S B}
      → Runs P r
      → ((a : A) (s : S) → P a s → Runs Q (k a s))
      → Runs Q (and_then r k)
  bind (runs p) next = next _ _ p

  pub mono :
      {Q : A → S → Type 0} {r : Option (A × S)}
      → Runs P r
      → ((a : A) (s : S) → P a s → Q a s)
      → Runs Q r
  mono (runs p) weaken = runs (weaken _ _ p)
