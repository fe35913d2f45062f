-- ===== src/Barrier.antt =====
-- ipc/barrier.c. `goal` and `now` are natural numbers: a goal is not negative, and `now` stays below
-- it between two calls.
pub mod Wait
use ucas_operating_system_la.Base.{ℕ, ◌+◌, none, some, ◌==◌, ltb, if◌then◌else◌, put}
use ucas_operating_system_la.Base.Run.{Cmd, ◌>>=◌, ◌>>◌}
use ucas_operating_system_la.Queue.{Ptr, null}
use ucas_operating_system_la.Kernel.{Kernel, barrier_queue}
use ucas_operating_system_la.Wakeup.{do_unblock_all}
use ucas_operating_system_la.Process.{do_block}

-- The fields of a barrier, through a pointer that must not be NULL.
abbrev get_now : Ptr → Cmd Kernel ℕ
get_now barrier k = if barrier == null then none else some (k.barrier_now barrier, k)

abbrev set_now : Ptr → ℕ → Cmd Kernel (Unit {0})
set_now barrier n k =
    if barrier == null
    then none
    else some (tt, record k { barrier_now = put k.barrier_now barrier n })

abbrev get_goal : Ptr → Cmd Kernel ℕ
get_goal barrier k = if barrier == null then none else some (k.barrier_goal barrier, k)

abbrev set_goal : Ptr → ℕ → Cmd Kernel (Unit {0})
set_goal barrier n k =
    if barrier == null
    then none
    else some (tt, record k { barrier_goal = put k.barrier_goal barrier n })

pub do_barrier_init : Ptr → ℕ → Cmd Kernel (Unit {0})
do_barrier_init barrier goal = do set_goal barrier goal; set_now barrier 0

pub do_barrier_wait : Ptr → Cmd Kernel (Unit {0})
do_barrier_wait barrier = do
  n ← get_now barrier
  set_now barrier (n + 1)
  now ← get_now barrier
  goal ← get_goal barrier
  if ltb now goal
      then do_block (barrier_queue barrier)
      else (do do_unblock_all (barrier_queue barrier); set_now barrier 0)
