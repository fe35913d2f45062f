-- ===== src/Tests/Calls.antt =====
-- A system call in a small kernel whose state is a number.
use mathlib.Core.List.Memᴰ.{head, tail}
use ucas_operating_system_la.Base.{ℕ, ◌+◌, refl, arith, false, none, some}
use ucas_operating_system_la.Base.Run.{Runs}
use ucas_operating_system_la.Syscall.{number, init_syscall, syscall_exit, do_exit}
use ucas_operating_system_la.Irq.{Os, Machine, invoke_syscall}
use ucas_operating_system_la.Irq.Dispatch.{Returned, invoke_syscall-Returned}

-- Every handler returns the sum of its arguments, which is added to the state.
abbrev small_os : Os ℕ
small_os = record {
  call = λ h a b c s. some (a + b + c, s + (a + b + c));
  is_exited = λ s. false;
  screen_reflush = λ s. some (tt, s);
  update_time_elapsed = λ s. some (tt, s);
  reset_timer = λ s. some (tt, s);
  set_last_run = λ s. some (tt, s);
  do_scheduler = λ s. some (tt, s);
  tlb_invalid_handler = λ s. some (tt, s);
}

abbrev machine : Machine ℕ
machine = record { regs = λ i. i; epc = 0; syscall = init_syscall (λ i. none); kernel = 100 }

invoke_syscall-Returned_example :
    Runs
      (Returned 6 106 4096 machine)
      (invoke_syscall small_os 32 4096 (number syscall_exit) 1 2 3 machine)
unfolding number
invoke_syscall-Returned_example =
    invoke_syscall-Returned small_os (λ i. none) machine 32 4096 syscall_exit do_exit 1 2 3 6 106
      refl (omega arith) (tail (head refl)) refl refl refl
