-- ===== src/Wakeup.antt =====
-- The part of kernel/sched/sched.c that makes waiting processes ready again, and that notes which
-- locks the current process holds.
pub mod Note
pub mod Unblock
pub mod Loop
use ucas_operating_system_la.Base.{
  ℕ, zero, suc, Bool, true, false, bnot, none, some, ◌==◌, if◌then◌else◌, put, find_from, Option,
}
use ucas_operating_system_la.Base.Run.{Cmd, pure, fault, ◌>>=◌, ◌>>◌}
use ucas_operating_system_la.Queue.{
  Ptr, null, Links, queue_is_empty, queue_push, queue_dequeue, queue_remove, get_next,
}
use ucas_operating_system_la.Kernel.{
  Pcb, Kernel, task_ready, ready_queue, max_lock, num_max_task, on_links, get_pcb, update_pcb,
  get_current,
}

pub do_unblock_one : Ptr → Cmd Kernel (Unit {0})
do_unblock_one queue = do
  item ← on_links (queue_dequeue queue)
  update_pcb item (λ p. record p { status = task_ready })
  update_pcb item (λ p. record p { in_queue = ready_queue })
  on_links (queue_push ready_queue item)

-- The `while` loop on fuel, a fault when it is used up.
unblock_loop : ℕ → Ptr → Cmd Kernel (Unit {0})
unfolding do_unblock_one
unblock_loop zero queue = fault
unblock_loop (suc n) queue = do
  empty ← on_links (queue_is_empty queue)
  if empty then pure tt else (do do_unblock_one queue; unblock_loop n queue)

-- A queue holds at most the 32 processes of `pcb_list`.
pub do_unblock_all : Ptr → Cmd Kernel (Unit {0})
unfolding unblock_loop
do_unblock_all queue = unblock_loop (suc num_max_task) queue

-- The walk over a queue that `check_sleeping` and `free_proc` make: every process that passes the test
-- goes to the ready queue.
pub wake_loop : Ptr → (Pcb → Bool) → ℕ → Ptr → Cmd Kernel (Unit {0})
wake_loop queue test zero item = fault
wake_loop queue test (suc n) item = if item == null then pure tt else (do
  p ← get_pcb item
  if test p
      then (do
        next_item ← on_links (queue_remove queue item)
        update_pcb item (λ p. record p { status = task_ready })
        on_links (queue_push ready_queue item)
        update_pcb item (λ p. record p { in_queue = ready_queue })
        wake_loop queue test n next_item)
      else (do next_item ← on_links (get_next item); wake_loop queue test n next_item))

abbrev set_lock_slot : Ptr → Option ℕ → Ptr → Cmd Kernel (Unit {0})
set_lock_slot p none lock = pure tt
set_lock_slot p (some i) lock = update_pcb p (λ x. record x { locks_got = put x.locks_got i lock })

pub proc_get_lock : Ptr → Cmd Kernel (Unit {0})
proc_get_lock lock = do
  p ← get_current
  x ← get_pcb p
  set_lock_slot p (find_from (λ i. x.locks_got i == null) 0 max_lock) lock

pub proc_lose_lock : Ptr → Cmd Kernel (Unit {0})
proc_lose_lock lock = do
  p ← get_current
  x ← get_pcb p
  set_lock_slot p (find_from (λ i. x.locks_got i == lock) 0 max_lock) null
