-- ===== src/Sched.antt =====
-- kernel/sched/sched.c: the process table, the scheduler, and how processes sleep, block, exit and are
-- killed. Built with PRIORITY_SCHED undefined, so the scheduler takes the first ready process.
-- `do_scheduler` (arch/mips/kernel/entry.S) switches to the next process; what follows it in the C code
-- runs when the old process is switched to again.
pub mod Wake
pub mod ReleaseLocks
pub mod FreeProc
pub mod Switch
pub mod Passes
pub mod Order
pub mod Asleep
pub mod Context
pub mod Turns
use ucas_operating_system_la.Base.{
  ℕ, zero, suc, ◌+◌, ◌-◌, ◌*◌, ◌/◌, ◌%◌, ◌^◌, Bool, true, false, bnot, ◌&&◌, Option, none, some,
  ◌==◌, ltb, if◌then◌else◌, put, find_from,
}
use ucas_operating_system_la.Base.Run.{Cmd, pure, ◌>>=◌, ◌>>◌}
use ucas_operating_system_la.Queue.{
  Ptr, null, queue_is_empty, queue_push, queue_dequeue, queue_remove, get_head,
}
use ucas_operating_system_la.Memory.{Vm, free_address_space}
use ucas_operating_system_la.Kernel.{
  Pcb, Kernel, task_none, task_sleeping, task_blocked, task_running, task_ready, task_exited,
  is_status, ready_queue, sleep_queue, waitpid_queue, max_lock, num_max_task, pcb_list, sub64,
  on_links, get_pcb, update_pcb, get_current,
}
use ucas_operating_system_la.Time.{get_timer}
use ucas_operating_system_la.Wakeup.{wake_loop}
use ucas_operating_system_la.Lock.{do_mutex_lock_release}

abbrev pub stack_top : ℕ
stack_top = 0xffff_ffff_a0f0_0000

abbrev pub stack_size : ℕ
stack_size = 0x1000

-- A change of the state that returns nothing.
abbrev pub modify : (Kernel → Kernel) → Cmd Kernel (Unit {0})
modify f k = some (tt, f k)

pub init_stack : Kernel → Kernel
init_stack k = record k { kernel_stack_used = put k.kernel_stack_used 0 true }

abbrev use_stack : Option ℕ → Cmd Kernel ℕ
use_stack none k = some (null, k)
use_stack (some i) k =
    some
      (stack_top - i * stack_size, record k { kernel_stack_used = put k.kernel_stack_used i true })

pub new_kernel_stack : Cmd Kernel ℕ
new_kernel_stack k =
    use_stack (find_from (λ i. bnot (k.kernel_stack_used i)) 1 (num_max_task - 1)) k

pub free_kernel_stack : ℕ → Kernel → Kernel
free_kernel_stack stack_addr k = record k {
  kernel_stack_used = put k.kernel_stack_used (sub64 stack_top stack_addr / stack_size) false;
}

abbrev pcb_or_null : Option ℕ → Ptr
pcb_or_null none = null
pcb_or_null (some i) = pcb_list i

pub alloc_pcb : Kernel → Ptr
alloc_pcb k =
    pcb_or_null
      (find_from (λ i. is_status (k.pcb (pcb_list i)).status task_none) 1 (num_max_task - 1))

pub free_pcb : Ptr → Cmd Kernel (Unit {0})
free_pcb pcb = do
  update_pcb pcb (λ p. record p { status = task_none })
  update_pcb pcb (λ p. record p { pid = 0 })

pub alloc_pid : Cmd Kernel ℕ
alloc_pid k = some (k.next_pid, record k { next_pid = k.next_pid + 1 })

-- The loop of `free_proc` over `locks_got`, from index `i` on.
pub release_locks : Ptr → ℕ → ℕ → Cmd Kernel (Unit {0})
release_locks pcb i zero = pure tt
release_locks pcb i (suc n) = do
  p ← get_pcb pcb
  if p.locks_got i == null then pure tt else (do
    do_mutex_lock_release (p.locks_got i)
    update_pcb pcb (λ p. record p { locks_got = put p.locks_got i null }))
  release_locks pcb (suc i) n

-- `if (!queue_is_empty(q)) { item = q.head; … }`, the two walks over a queue.
pub wake_queue : Ptr → (Pcb → Bool) → Cmd Kernel (Unit {0})
wake_queue queue test = do
  empty ← on_links (queue_is_empty queue)
  if empty
      then pure tt
      else (do item ← on_links (get_head queue); wake_loop queue test (suc num_max_task) item)

pub free_proc : Ptr → Cmd Kernel (Unit {0})
unfolding free_kernel_stack
free_proc pcb = do
  p ← get_pcb pcb
  modify (free_kernel_stack p.kernel_sp)
  modify (λ k. record k { vm = free_address_space p.page_table k.vm })
  release_locks pcb 0 max_lock
  wake_queue waitpid_queue (λ x. x.waitpid == p.pid)
  free_pcb pcb

pub check_sleeping : Cmd Kernel (Unit {0})
unfolding get_timer
check_sleeping k =
    let current_time : ℕ = get_timer k % 2 ^ 32 in
    wake_queue sleep_queue (λ x. ltb x.sleep_until current_time) k

-- What the scheduler does with the process that was running.
pub requeue_current : Cmd Kernel (Unit {0})
requeue_current = do
  current ← get_current
  p ← get_pcb current
  if bnot (p.pid == 0) && is_status p.status task_running
      then (do
        update_pcb current (λ x. record x { status = task_ready })
        on_links (queue_push ready_queue current)
        update_pcb current (λ x. record x { in_queue = ready_queue }))
      else if is_status p.status task_exited
      then free_proc current
      else pure tt

-- The first ready process becomes the current one.
pub take_next : Cmd Kernel (Unit {0})
take_next = do
  next ← on_links (queue_dequeue ready_queue)
  modify (λ k. record k { current_running = next })
  update_pcb next (λ x. record x { status = task_running })
  update_pcb next (λ x. record x { in_queue = null })
  p ← get_pcb next
  modify (λ k. record k { current_pid = p.pid })
  modify (λ k. record k { vm = record (k.vm) { current_pgd = p.page_table } })

pub scheduler : Cmd Kernel (Unit {0})
scheduler = do check_sleeping; requeue_current; take_next

pub save_cursor : Cmd Kernel (Unit {0})
save_cursor k =
    update_pcb k.current_running
      (λ p. record p { cursor_x = k.screen_cursor_x; cursor_y = k.screen_cursor_y }) k

pub restore_cursor : Cmd Kernel (Unit {0})
restore_cursor = do
  current ← get_current
  p ← get_pcb current
  modify (λ k. record k { screen_cursor_x = p.cursor_x; screen_cursor_y = p.cursor_y })

pub do_scheduler : Cmd Kernel (Unit {0})
do_scheduler = do save_cursor; scheduler; restore_cursor
