-- ===== src/Irq/Dispatch.antt =====
-- A system call from the instruction `syscall` to its handler and back.
use mathlib.Core.List.{Memᴰ}
use mathlib.Core.List.Memᴰ.{head, tail}
use ucas_operating_system_la.Base.{
  ℕ, ◌+◌, ◌%◌, ◌^◌, ◌≡◌, ◌≢◌, refl, arith, Bool, true, false, bnot, ◌&&◌, ◌||◌, some, List, [], ◌∷◌,
  ◌==◌, put, ap, ◌∙◌, ◌<◌, lt→ltb,
}
use ucas_operating_system_la.Base.Run.{Runs, runs}
use ucas_operating_system_la.Syscall.{
  num_syscalls, SyscallName, Handler, Table, number, registrations, register, init_syscall,
  system_call_helper,
}
use ucas_operating_system_la.Irq.{
  Os, Machine, exccode_of, exc_sys, handle_syscall, interrupt_helper, invoke_syscall,
}

-- Whether a number is registered.
abbrev has_number : ℕ → List (SyscallName × Handler) → Bool
has_number k [] = false
has_number k ((n, h) ∷ rest) = (k == number n) || has_number k rest

-- Whether no number is registered twice.
abbrev are_distinct : List (SyscallName × Handler) → Bool
are_distinct [] = true
are_distinct ((n, h) ∷ rest) = bnot (has_number (number n) rest) && are_distinct rest

register_other :
    (l : List (SyscallName × Handler)) (t : Table) (k : ℕ)
    → has_number k l ≡ false
    → register l t k ≡ t k
register_other [] t k h = refl
register_other ((n, x) ∷ rest) t k h =
    ground (arith, register_other rest (put t (number n) (some x)) k)

register_same :
    (l : List (SyscallName × Handler)) (t : Table) (n : SyscallName) (h : Handler)
    → are_distinct l ≡ true
    → Memᴰ (n, h) l
    → register l t (number n) ≡ some h
register_same [] t n h d i = elim i [ ]
register_same (x ∷ rest) t n h d (head e) =
    let k : number n ≡ number x.0 = ap (λ (p : SyscallName × Handler). number p.0) e in
    let g : h ≡ x.1 = ap (λ (p : SyscallName × Handler). p.1) e in
    rw (k, g)
      (register_other rest (put t (number x.0) (some x.1)) (number x.0) (ground arith)
        ∙ ground arith)
register_same (x ∷ rest) t n h d (tail i) =
    register_same rest (put t (number x.0) (some x.1)) n h (ground arith) i

registrations_distinct : are_distinct registrations ≡ true
unfolding number
registrations_distinct = refl

-- What a handler that returns `r` in the state `s` leaves behind a system call.
abbrev pub Returned : {S : Type 0} → ℕ → S → (pc : ℕ) → Machine S → ℕ → Machine S → Type 0
Returned r s pc m v m' =
    (v ≡ r)
    × (m'.kernel ≡ s)
    × (m'.epc ≡ (pc + 4) % 2 ^ 64)
    × (m'.syscall ≡ m.syscall)
    × (m'.regs 2 ≡ r)
    × ((i : ℕ) → i ≢ 2 → i ≢ 4 → i ≢ 5 → i ≢ 6 → m'.regs i ≡ m.regs i)

module _ {S : Type 0} (os : Os S) where
  -- After init_syscall, when the current process has not exited, an exception with the code of a
  -- system call whose number is registered and lies within the array runs its handler with the three
  -- arguments: it ends if the handler ends, returns what the handler returns, leaves the kernel's
  -- state as the handler does, goes on behind the instruction, and leaves every register but $v0 and
  -- $a0 to $a2.
  pub invoke_syscall-Returned :
      (t : Table) (m : Machine S) (cause pc : ℕ) (n : SyscallName) (h : Handler) (a b c r : ℕ)
      (s : S)
      → m.syscall ≡ init_syscall t
      → number n < num_syscalls
      → Memᴰ (n, h) registrations
      → exccode_of cause ≡ exc_sys
      → os.is_exited m.kernel ≡ false
      → os.call h a b c m.kernel ≡ some (r, s)
      → Runs (Returned r s pc m) (invoke_syscall os cause pc (number n) a b c m)
  unfolding invoke_syscall interrupt_helper handle_syscall system_call_helper
  invoke_syscall-Returned t m cause pc n h a b c r s e lt i x alive ret =
      let entry : m.syscall (number n) ≡ some h =
        ap (λ (u : Table). u (number n)) e
        ∙ unfold init_syscall in register_same registrations t n h registrations_distinct i in
      rw (x, alive)
        (rw (lt→ltb (number n) num_syscalls lt, entry, ret)
          (runs (refl, refl, refl, refl, refl, λ j p q u v. ground arith)))
