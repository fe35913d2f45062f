-- ===== src/Tests/Processes.antt =====
-- The scheduler and the operations on processes on the concrete kernel.
use ucas_operating_system_la.Base.{
  none, some, find_from, [], ◌∷◌, ◌++◌, ◌+◌, ◌-◌, ◌^◌, ◌<◌, ◌≤◌, ◌≡◌, refl, arith, put,
}
use ucas_operating_system_la.Base.Run.{Runs}
use ucas_operating_system_la.Kernel.{Kernel, put_pcb, sleep_queue, ready_queue}
use ucas_operating_system_la.Kernel.Inv.{Inv}
use ucas_operating_system_la.Kernel.Keeps.{Keeps}
use ucas_operating_system_la.Time.{get_timer, get_ticks, update_time_elapsed}
use ucas_operating_system_la.Time.Elapsed.{counts, update_time_elapsed-counts}
use ucas_operating_system_la.Wakeup.{do_unblock_all}
use ucas_operating_system_la.Wakeup.Loop.{select, Spares}
use ucas_operating_system_la.Wakeup.Unblock.{do_unblock_all-moves}
use ucas_operating_system_la.Sched.{check_sleeping, scheduler, do_scheduler}
use ucas_operating_system_la.Sched.Wake.{due, woken, check_sleeping-wakes}
use ucas_operating_system_la.Sched.Switch.{Scheduled, scheduler-Scheduled}
use ucas_operating_system_la.Sched.Order.{candidates, rest_ready}
use ucas_operating_system_la.Sched.Context.{SwitchedTo, do_scheduler-round_robin}
use ucas_operating_system_la.Process.{do_block, do_sleep}
use ucas_operating_system_la.Kernel.{waitpid_queue}
use ucas_operating_system_la.Process.{do_waitpid}
use ucas_operating_system_la.Process.Wait.{waiting_for, do_waitpid-SwitchedTo}
use ucas_operating_system_la.Process.{killed, do_kill}
use ucas_operating_system_la.Process.Kill.{Killed, do_kill-Killed}
use ucas_operating_system_la.Process.Sleep.{asleep, with_sleeper, do_sleep-SwitchedTo}
use ucas_operating_system_la.Process.Moves.{blocked_on, do_block-SwitchedTo}
use ucas_operating_system_la.Irq.{interrupt_helper}
use ucas_operating_system_la.Irq.Timer.{kernel_os, ticked, interrupt_helper-SwitchedTo}
use ucas_operating_system_la.Tests.Demo.{demo, demo_queues, demo-Inv}

-- Process 3 is ready and process 4 is due.
demo-candidates : candidates demo demo_queues ≡ 3 ∷ 4 ∷ []
unfolding get_timer
demo-candidates = refl

do_scheduler-round_robin_example :
    Runs (λ _. SwitchedTo demo 3 (rest_ready demo demo_queues (4 ∷ 2 ∷ []))) (do_scheduler demo)
unfolding get_timer
do_scheduler-round_robin_example =
    do_scheduler-round_robin demo demo_queues demo-Inv (omega arith) (omega arith) 3 (4 ∷ 2 ∷ [])
      refl (omega arith) refl

scheduler-Scheduled_example : Runs (λ _. Scheduled 3) (scheduler demo)
scheduler-Scheduled_example =
    scheduler-Scheduled demo demo_queues 3 [] demo-Inv (omega arith) (omega arith) refl

do_block-SwitchedTo_example :
    Runs
      (λ _.
        SwitchedTo
          (blocked_on 108 demo)
          3
          (rest_ready demo (put demo_queues 108 (demo_queues 108 ++ 2 ∷ [])) (4 ∷ [])))
      (do_block 108 demo)
do_block-SwitchedTo_example =
    do_block-SwitchedTo demo demo_queues demo-Inv (omega arith) (omega arith) refl 108 3 (4 ∷ [])
      (omega arith) (omega arith) (omega arith) demo-candidates

check_sleeping-wakes_example :
    Runs
      (λ _ k'.
        Inv k' (woken (due demo) sleep_queue demo_queues)
        × Keeps demo k'
        × Spares (select (due demo) (4 ∷ [])) demo k')
      (check_sleeping demo)
check_sleeping-wakes_example = check_sleeping-wakes demo demo_queues demo-Inv

-- Process 2 holds the lock that 5 and 6 wait for.
abbrev holder : Kernel
holder = put_pcb 2 (record (demo.pcb 2) { locks_got = put (λ i. 0) 3 100 }) demo

do_unblock_all-moves_example :
    Runs
      (λ _ k'.
        Inv k' (put (put demo_queues 108 []) ready_queue (3 ∷ 5 ∷ 6 ∷ []))
        × Keeps demo k'
        × Spares (5 ∷ 6 ∷ []) demo k')
      (do_unblock_all 108 demo)
do_unblock_all-moves_example =
    do_unblock_all-moves demo demo_queues 108 demo-Inv (omega arith) (omega arith)

-- The counter goes from 2 ^ 32 - 6 over the top to 4.
update_time_elapsed-counts_example :
    (demo.last_cp0_count < 4
      → get_ticks (update_time_elapsed 4 demo) ≡ get_ticks demo + counts demo.last_cp0_count 4)
    × (4 ≤ demo.last_cp0_count
        → get_ticks (update_time_elapsed 4 demo) + 1
          ≡ get_ticks demo + (4 + 2 ^ 32 - demo.last_cp0_count))
    × ((update_time_elapsed 4 demo).last_cp0_count ≡ 4)
update_time_elapsed-counts_example =
    update_time_elapsed-counts demo 4 (omega arith) (omega arith) (omega arith)

do_sleep-SwitchedTo_example :
    Runs
      (λ _.
        SwitchedTo
          (asleep 1 demo)
          3
          (rest_ready (asleep 1 demo) (with_sleeper demo demo_queues) (4 ∷ [])))
      (do_sleep 1 demo)
unfolding get_timer
do_sleep-SwitchedTo_example =
    do_sleep-SwitchedTo demo demo_queues 1 3 (4 ∷ []) demo-Inv (omega arith) (omega arith) refl refl

-- The process 15 is the first that waits for the lock.
do_kill-Killed_example :
    Runs (λ r k'. (r ≡ killed) × Killed demo demo_queues 108 [] (6 ∷ []) 5 k') (do_kill 15 demo)
unfolding find_from
do_kill-Killed_example =
    do_kill-Killed demo demo_queues demo-Inv (omega arith) 4 108 (omega arith) [] (6 ∷ []) refl 15
      refl

do_waitpid-SwitchedTo_example :
    Runs
      (λ _. SwitchedTo (waiting_for 17 demo) 3 (
        rest_ready demo
          (put demo_queues waitpid_queue (demo_queues waitpid_queue ++ 2 ∷ []))
          (4 ∷ [])))
      (do_waitpid 17 demo)
unfolding find_from
do_waitpid-SwitchedTo_example =
    do_waitpid-SwitchedTo demo demo_queues 17 6 3 (4 ∷ []) demo-Inv (omega arith) (omega arith) refl
      refl demo-candidates

-- A timer interrupt stops process 2, and process 3 goes on.
interrupt_helper-SwitchedTo_example :
    Runs
      (λ _ m'.
        SwitchedTo
          (ticked (λ h a b c k. some (0, k)) (λ i. i) 10 0 demo)
          3
          (rest_ready
            (ticked (λ h a b c k. some (0, k)) (λ i. i) 10 0 demo)
            demo_queues
            (4 ∷ 2 ∷ []))
          m'.kernel
        × (m'.kernel.time_elapsed ≡ 600015))
      (interrupt_helper
        (kernel_os (λ h a b c k. some (0, k)) (λ i. i) 10 0)
        0x8000
        (record { regs = λ i. 0; epc = 0; syscall = λ n. none; kernel = demo }))
unfolding get_timer update_time_elapsed
interrupt_helper-SwitchedTo_example =
    interrupt_helper-SwitchedTo (λ h a b c k. some (0, k)) (λ i. i) 10 0
      (record { regs = λ i. 0; epc = 0; syscall = λ n. none; kernel = demo }) demo_queues 0x8000 3
      (4 ∷ 2 ∷ []) (omega arith) (omega arith) (omega arith) demo-Inv (omega arith) (omega arith)
      refl (omega arith) refl refl refl
