-- ===== src/Process.antt =====
-- kernel/sched/sched.c: how a process is created, sleeps, blocks, waits, exits and is killed.
-- In `do_spawn` the contents of the two register contexts that it writes on the new kernel stack are
-- left out; the stack pointers are computed as there.
pub mod Moves
pub mod Sleep
pub mod Kill
pub mod Wait
use ucas_operating_system_la.Base.{
  ℕ, ◌+◌, ◌*◌, ◌%◌, ◌^◌, List, Option, none, some, ◌==◌, ltb, if◌then◌else◌, put, find_from,
}
use ucas_operating_system_la.Base.Run.{Cmd, pure, ◌>>=◌, ◌>>◌}
use ucas_operating_system_la.Queue.{Ptr, null, queue_push, queue_remove}
use ucas_operating_system_la.Memory.{Addr, alloc_page, init_pgd}
use ucas_operating_system_la.Kernel.{
  Pcb, Kernel, TaskType, task_sleeping, task_blocked, task_running, task_ready, task_exited,
  is_status, ready_queue, sleep_queue, waitpid_queue, num_max_task, pcb_list, sub64, on_links,
  get_pcb, update_pcb, get_current,
}
use ucas_operating_system_la.Time.{get_timer}
use ucas_operating_system_la.Sched.{
  modify, new_kernel_stack, alloc_pcb, alloc_pid, free_proc, do_scheduler,
}

pub do_sleep : ℕ → Cmd Kernel (Unit {0})
do_sleep sleep_time = do
  current ← get_current
  update_pcb current (λ p. record p { status = task_sleeping })
  (λ k. update_pcb current (λ p. record p { sleep_until = (get_timer k + sleep_time) % 2 ^ 32 }) k)
  on_links (queue_push sleep_queue current)
  update_pcb current (λ p. record p { in_queue = sleep_queue })
  do_scheduler

pub do_exit : Cmd Kernel (Unit {0})
do_exit = do
  current ← get_current
  update_pcb current (λ p. record p { status = task_exited })
  free_proc current
  do_scheduler

-- The process in slot `i` of the table is killed.
pub kill_slot : ℕ → Cmd Kernel (Unit {0})
kill_slot i = do
  p ← get_pcb (pcb_list i)
  if is_status p.status task_running
      then update_pcb (pcb_list i) (λ x. record x { status = task_exited })
      else (do
        update_pcb (pcb_list i) (λ x. record x { status = task_exited })
        _ ← on_links (queue_remove p.in_queue (pcb_list i))
        free_proc (pcb_list i))

-- The result of `do_kill`: 0, or -1 if no process has the identifier.
pub data KillResult : Type 0 where
  killed not_found : KillResult

abbrev kill_found : Option ℕ → Cmd Kernel KillResult
kill_found none = pure not_found
kill_found (some i) = kill_slot i >> pure killed

pub do_kill : ℕ → Cmd Kernel KillResult
unfolding kill_slot
do_kill pid k = kill_found (find_from (λ i. (k.pcb (pcb_list i)).pid == pid) 0 num_max_task) k

pub do_block : Ptr → Cmd Kernel (Unit {0})
do_block queue = do
  current ← get_current
  update_pcb current (λ p. record p { status = task_blocked })
  update_pcb current (λ p. record p { in_queue = queue })
  on_links (queue_push queue current)
  do_scheduler

abbrev wait_found : ℕ → Option ℕ → Cmd Kernel (Unit {0})
wait_found pid none = pure tt
wait_found pid (some i) = do
  current ← get_current
  update_pcb current (λ p. record p { waitpid = pid })
  update_pcb current (λ p. record p { status = task_blocked })
  on_links (queue_push waitpid_queue current)
  update_pcb current (λ p. record p { in_queue = waitpid_queue })
  do_scheduler

pub do_waitpid : ℕ → Cmd Kernel (Unit {0})
do_waitpid pid k =
    wait_found pid (find_from (λ i. (k.pcb (pcb_list i)).pid == pid) 0 num_max_task) k

pub do_getpid : Cmd Kernel ℕ
do_getpid = do current ← get_current; p ← get_pcb current; pure p.pid

-- `task_info_t`
pub record TaskInfo : Type 0 where
  pub name : List ℕ
  pub entry_point : Addr
  pub task_type : TaskType
  pub priority : ℕ

pub set_pcb : Ptr → ℕ → TaskInfo → ℕ → ℕ → Addr → Cmd Kernel (Unit {0})
set_pcb pcb pid task_info kernel_stack user_stack page_table = do
  update_pcb pcb (λ p. record p {
    pid = pid;
    task_type = task_info.task_type;
    priority = task_info.priority;
    name = task_info.name;
  })
  on_links (λ s. some (tt, record s { prev = put s.prev pcb null; next = put s.next pcb null }))
  update_pcb pcb (λ p. record p { status = task_ready })
  on_links (queue_push ready_queue pcb)
  update_pcb pcb (λ p. record p {
    in_queue = ready_queue;
    page_table = page_table;
    kernel_sp = kernel_stack;
    user_sp = user_stack;
    locks_got = λ i. null;
    cursor_x = 0;
    cursor_y = 0;
  })

abbrev user_stack_top : Addr
user_stack_top = 0x500_0000

-- `sizeof(regs_context_t)`: 39 registers of 8 bytes.
abbrev context_size : ℕ
context_size = 312

-- `do_spawn` from the allocation of the page directory on.
pub start_process : Ptr → ℕ → TaskInfo → ℕ → ℕ → Cmd Kernel ℕ
unfolding set_pcb
start_process pcb pid task argc kernel_stack k =
    let (page_table, ctrl) = alloc_page k.vm.page_ctrl_pgd in
    let k' : Kernel = record k {
      vm = init_pgd page_table (record (k.vm) { page_ctrl_pgd = ctrl });
    } in
    let args_size : ℕ = if ltb 0 argc then 64 * argc else 0 in
    let sp : ℕ = sub64 (sub64 (sub64 kernel_stack context_size) args_size) context_size in
    (set_pcb pcb pid task sp user_stack_top page_table >> pure pid) k'

-- `none` is the result -1: the table is full.
pub do_spawn : TaskInfo → ℕ → Cmd Kernel (Option ℕ)
unfolding start_process
do_spawn task argc k =
    if alloc_pcb k == null
    then pure none k
    else (do
      pid ← alloc_pid
      kernel_stack ← new_kernel_stack
      pid' ← start_process (alloc_pcb k) pid task argc kernel_stack
      pure (some pid'))
        k
