-- ===== src/Irq/Timer.antt =====
-- The timer interrupt of kernel/irq/irq.c over the kernel's state: the clock goes on, and the processor
-- passes to the next process.
use ucas_operating_system_la.Base.{
  ℕ, ◌+◌, ◌-◌, ◌/◌, ◌^◌, ◌≡◌, ◌≢◌, ◌≤◌, ◌<◌, refl, sym, ap, arith, true, List, [], ◌∷◌, ◌++◌,
  Option, ==_ne, ltb, if◌then◌else◌, put,
}
use mathlib.Core.Path.{subst}
use ucas_operating_system_la.Base.Run
use ucas_operating_system_la.Base.Run.{Cmd, Runs, runs, pure}
use ucas_operating_system_la.Queue.{Ptr, null}
use ucas_operating_system_la.Memory.{tlb_invalid_handler}
use ucas_operating_system_la.Kernel.{
  Kernel, Pcb, is_status, task_running, task_exited, num_max_task, update_pcb,
}
use ucas_operating_system_la.Kernel.Inv.{Inv, Inv-same}
use ucas_operating_system_la.Time.{get_timer, update_time_elapsed}
use ucas_operating_system_la.Sched.{do_scheduler, modify}
use ucas_operating_system_la.Sched.Order.{candidates, rest_ready}
use ucas_operating_system_la.Sched.Context.{SwitchedTo, do_scheduler-round_robin}
use ucas_operating_system_la.Syscall.{Handler}
use ucas_operating_system_la.Irq.{
  Os, Machine, exccode_of, exc_int, has_ip7, on_result, irq_timer, interrupt_helper,
}

-- `current_running->last_run = get_timer()`
abbrev note_last_run : Cmd Kernel (Unit {0})
note_last_run k = update_pcb k.current_running (λ (p : Pcb). record p { last_run = get_timer k }) k

-- What the clock takes the 32-bit counter to have passed from `last` to `current`: one count less than
-- it has when it has wrapped, or not moved.
abbrev pub passed : (last current : ℕ) → ℕ
passed last current = if ltb last current then current - last else current + 0xffff_ffff - last

module _ (call : Handler → (arg0 arg1 arg2 : ℕ) → Cmd Kernel ℕ) (index : ℕ → ℕ)
    (cp0_count badvaddr : ℕ) where
  -- The kernel of this library behind the interface. The screen, the serial port and the timer's own
  -- register are no part of its state. `cp0_count` is what the counter shows.
  abbrev pub kernel_os : Os Kernel
  kernel_os = record {
    call = call;
    is_exited = λ k. is_status (k.pcb k.current_running).status task_exited;
    screen_reflush = pure tt;
    update_time_elapsed = modify (update_time_elapsed cp0_count);
    reset_timer = pure tt;
    set_last_run = note_last_run;
    do_scheduler = do_scheduler;
    tlb_invalid_handler =
        modify (λ k. record k { vm = tlb_invalid_handler index k.current_pid badvaddr k.vm });
  }

  -- The clock is at `time`, and the current process has run until then.
  abbrev clocked : ℕ → Kernel → Kernel
  clocked time k = record k {
    time_elapsed = time;
    last_cp0_count = cp0_count;
    pcb =
        put k.pcb k.current_running (record (k.pcb k.current_running) { last_run = time / 300000 });
  }

  -- The clock has gone on by what the counter has, and the current process has run until then.
  abbrev pub ticked : Kernel → Kernel
  ticked k = clocked (k.time_elapsed + passed k.last_cp0_count cp0_count) k

  -- The same as the code computes it.
  updated : Kernel → Kernel
  updated k = clocked (update_time_elapsed cp0_count k).time_elapsed k

  updated-eq :
      (k : Kernel)
      → cp0_count < 2 ^ 32
      → k.last_cp0_count < 2 ^ 32
      → k.time_elapsed < 2 ^ 63
      → updated k ≡ ticked k
  unfolding update_time_elapsed updated
  updated-eq k c l t =
      let same : (update_time_elapsed cp0_count k).time_elapsed
          ≡ k.time_elapsed + passed k.last_cp0_count cp0_count =
        ground arith in
      ap (λ x. clocked x k) same

  on_result-Runs :
      {P : Kernel → Type 0} {r : Option (Unit {0} × Kernel)} (m : Machine Kernel)
      → Runs (λ _. P) r
      → Runs (λ _ m'. P m'.kernel) (on_result kernel_os r m)
  on_result-Runs m (runs p) = runs p

  ticked-Inv : (k : Kernel) (qs : Ptr → List Ptr) → Inv k qs → Inv (ticked k) qs
  ticked-Inv k qs v = Inv-same (ticked k) v refl (λ a. ground arith)

  -- When the queues are consistent, the process that runs is in the table and is not process 0, the
  -- counter and its last value have 32 bits and the clock is below 2 ^ 63, a timer interrupt over
  -- the kernel of this library ends with the clock advanced by the difference of the counter from
  -- its last value (one less than it has counted when it has wrapped), the counter and the
  -- interrupted process's last_run noted, the first of the processes that are ready or due at the
  -- new time running, the others ready in order and the interrupted one behind them; it runs on if
  -- there is no other.
  pub interrupt_helper-SwitchedTo :
      (m : Machine Kernel) (qs : Ptr → List Ptr) (cause : ℕ) (y : Ptr) (ys : List Ptr)
      → cp0_count < 2 ^ 32
      → m.kernel.last_cp0_count < 2 ^ 32
      → m.kernel.time_elapsed < 2 ^ 63
      → Inv m.kernel qs
      → m.kernel.current_running ≢ null
      → m.kernel.current_running ≤ num_max_task
      → (m.kernel.pcb m.kernel.current_running).status ≡ task_running
      → (m.kernel.pcb m.kernel.current_running).pid ≢ 0
      → exccode_of cause ≡ exc_int
      → has_ip7 cause ≡ true
      → candidates (ticked m.kernel) qs ++ m.kernel.current_running ∷ [] ≡ y ∷ ys
      → Runs
          (λ _ m'.
            SwitchedTo (ticked m.kernel) y (rest_ready (ticked m.kernel) qs ys) m'.kernel
            × (m'.kernel.time_elapsed
                ≡ m.kernel.time_elapsed + passed m.kernel.last_cp0_count cp0_count))
          (interrupt_helper kernel_os cause m)
  unfolding interrupt_helper irq_timer update_time_elapsed get_timer updated
  interrupt_helper-SwitchedTo m qs cause y ys c l t v ne le run np x ip e =
      let k : Kernel = ticked m.kernel in
      let same : (k.pcb k.current_running).status ≡ task_running = ground arith in
      let pid : (k.pcb k.current_running).pid ≢ 0 = λ z. np (ground arith) in
      rw (x, ip, ==_ne m.kernel.current_running null ne)
        (on_result-Runs m (
          Run.mono
            (subst (λ x. Runs (λ _. SwitchedTo k y (rest_ready k qs ys)) (do_scheduler x))
              (sym (updated-eq m.kernel c l t))
              (do_scheduler-round_robin k qs (ticked-Inv m.kernel qs v) ne le y ys same pid e))
            λ _ k' w. (w, ap (λ (x : Kernel). x.time_elapsed) w.rest)))
