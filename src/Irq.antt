-- ===== src/Irq.antt =====
-- kernel/irq/irq.c and invoke_syscall of arch/mips/kernel/syscall.S: what an exception does. The parts
-- of the kernel that it calls are an interface, `Os`. Registers are 64 bits wide.
pub mod Dispatch
pub mod Wrapper
pub mod Timer
use ucas_operating_system_la.Base.{
  ℕ, ◌+◌, ◌-◌, ◌*◌, ◌/◌, ◌%◌, ◌^◌, Bool, Option, none, some, ◌&&◌, ◌||◌, ◌==◌, if◌then◌else◌, put,
}
use ucas_operating_system_la.Base.Run.{Cmd, pure, fault, ◌>>=◌, ◌>>◌}
use ucas_operating_system_la.Syscall.{Handler, Table, system_call_helper}

-- What the exception handler calls, over the kernel's state `S`. `set_last_run` is
-- `current_running->last_run = get_timer()`, `is_exited` says that the status of `current_running` is
-- TASK_EXITED, and `reset_timer` stands for the CP0 registers that it sets.
pub record Os (S : Type 0) : Type 0 where
  pub call : Handler → (arg0 arg1 arg2 : ℕ) → Cmd S ℕ
  pub is_exited : S → Bool
  pub screen_reflush : Cmd S (Unit {0})
  pub update_time_elapsed : Cmd S (Unit {0})
  pub reset_timer : Cmd S (Unit {0})
  pub set_last_run : Cmd S (Unit {0})
  pub do_scheduler : Cmd S (Unit {0})
  pub tlb_invalid_handler : Cmd S (Unit {0})

-- `exccode_t`: the codes that the handler tests.
abbrev pub exc_int : ℕ
exc_int = 0

abbrev pub exc_tlbl : ℕ
exc_tlbl = 2

abbrev pub exc_tlbs : ℕ
exc_tlbs = 3

abbrev pub exc_sys : ℕ
exc_sys = 8

-- `(cause & CAUSE_EXCCODE) >> 2`
abbrev pub exccode_of : ℕ → ℕ
exccode_of cause = cause / 4 % 32

-- `cause & CAUSE_IP7`
abbrev pub has_ip7 : ℕ → Bool
has_ip7 cause = cause / 2 ^ 15 % 2 == 1

-- The fields of `regs_context_t` that the handler reads or writes, the system call table and the
-- kernel's state.
pub record Machine (S : Type 0) : Type 0 where
  pub regs : ℕ → ℕ
  pub epc : ℕ
  pub syscall : Table
  pub kernel : S

module _ {S : Type 0} (os : Os S) where
  -- A command on the kernel's state.
  abbrev on_result : {A : Type 0} → Option (A × S) → Machine S → Option (A × Machine S)
  on_result none m = none
  on_result (some (a, s)) m = some (a, record m { kernel = s })

  abbrev in_kernel : {A : Type 0} → Cmd S A → Cmd (Machine S) A
  in_kernel c m = on_result (c m.kernel) m

  pub irq_timer : Cmd S (Unit {0})
  irq_timer = do
    os.screen_reflush
    os.update_time_elapsed
    os.reset_timer
    os.set_last_run
    os.do_scheduler

  abbrev store_result : ℕ → Cmd (Machine S) (Unit {0})
  store_result r m = some (tt, record m { regs = put m.regs 2 r; epc = (m.epc + 4) % 2 ^ 64 })

  -- The branch of a system call.
  pub handle_syscall : Cmd (Machine S) (Unit {0})
  handle_syscall m =
      (in_kernel (system_call_helper os.call m.syscall (m.regs 2) (m.regs 4) (m.regs 5) (m.regs 6))
          >>= store_result)
        m

  -- `other_exception_handler` prints the registers and then loops for ever, which is a fault here.
  pub interrupt_helper : (cause : ℕ) → Cmd (Machine S) (Unit {0})
  unfolding irq_timer handle_syscall
  interrupt_helper cause m =
      let exccode : ℕ = exccode_of cause in
      if (exccode == exc_int && has_ip7 cause) || os.is_exited m.kernel
      then in_kernel irq_timer m
      else if exccode == exc_tlbl || exccode == exc_tlbs
      then in_kernel os.tlb_invalid_handler m
      else if exccode == exc_sys
      then handle_syscall m
      else none

  -- The number goes to $v0 and the arguments to $a0, $a1 and $a2; `syscall` raises the exception at
  -- its own address `pc`, with a `cause` whose code is 8, and what comes back is in $v0.
  pub invoke_syscall : (cause pc : ℕ) (fn arg0 arg1 arg2 : ℕ) → Cmd (Machine S) ℕ
  unfolding interrupt_helper
  invoke_syscall cause pc fn arg0 arg1 arg2 m =
      (interrupt_helper cause >>= λ _ m'. some (m'.regs 2, m'))
        (record m { regs = put (put (put (put m.regs 2 fn) 4 arg0) 5 arg1) 6 arg2; epc = pc })
