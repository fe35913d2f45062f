-- ===== src/Kernel.antt =====
-- The kernel's state as kernel/sched, kernel/locking and ipc share it (include/os/sched.h, lock.h,
-- cond.h, barrier.h): the process control blocks, the current process, the locks and barriers, the
-- clock, and the commands that read and write them. A pointer is a number, NULL is 0, and the i-th
-- entry of `pcb_list` is at the pointer i + 1. The fields `prev` and `next` of `pcb_t` are in `links`,
-- with the queues. A type `pid_t` or `int64_t` is a natural number: nothing here makes one negative.
pub mod Inv
pub mod Grown
pub mod Keeps
use ucas_operating_system_la.Base.{
  ℕ, ◌+◌, ◌-◌, ◌%◌, ◌^◌, Bool, List, none, some, ◌==◌, if◌then◌else◌, put, Option,
}
use ucas_operating_system_la.Base.Run.{Cmd}
use ucas_operating_system_la.Queue.{Ptr, null, Links}
use ucas_operating_system_la.Memory.{Addr, Vm}

abbrev pub num_max_task : ℕ
num_max_task = 32

abbrev pub max_lock : ℕ
max_lock = 10

-- Subtraction of `uint64_t`.
abbrev pub sub64 : ℕ → ℕ → ℕ
sub64 a b = (a + 2 ^ 64 - b) % 2 ^ 64

-- `&pcb_list[i]`
abbrev pub pcb_list : ℕ → Ptr
pcb_list i = i + 1

-- `task_status_t`
pub data Status : Type 0 where
  task_none task_sleeping task_blocked task_running task_ready task_exited : Status

abbrev pub is_status : Status → Status → Bool
is_status task_none task_none = Bool.true
is_status task_sleeping task_sleeping = Bool.true
is_status task_blocked task_blocked = Bool.true
is_status task_running task_running = Bool.true
is_status task_ready task_ready = Bool.true
is_status task_exited task_exited = Bool.true
is_status _ _ = Bool.false

-- `task_type_t`
pub data TaskType : Type 0 where
  kernel_process kernel_thread user_process user_thread : TaskType

-- `lock_status_t`
pub data LockStatus : Type 0 where
  unlocked locked : LockStatus

-- `pcb_t`, less the links and the table of open files.
pub record Pcb : Type 0 where
  pub kernel_sp : ℕ
  pub user_sp : ℕ
  pub page_table : Addr
  pub in_queue : Ptr
  pub priority : ℕ
  pub last_run : ℕ
  pub name : List ℕ
  pub pid : ℕ
  pub task_type : TaskType
  pub status : Status
  pub sleep_until : ℕ
  pub waitpid : ℕ
  pub locks_got : ℕ → Ptr
  pub cursor_x : ℕ
  pub cursor_y : ℕ

-- The statically allocated queues.
abbrev pub ready_queue : Ptr
ready_queue = 1

abbrev pub sleep_queue : Ptr
sleep_queue = 2

abbrev pub waitpid_queue : Ptr
waitpid_queue = 3

-- `&lock->block_queue`, `&barrier->block_queue` and `&condition->block_queue`, by their offsets in
-- `mutex_lock_t`, `barrier_t` and `condition_t`. The lock of a condition is its first member.
abbrev pub lock_queue : Ptr → Ptr
lock_queue lock = lock + 8

abbrev pub barrier_queue : Ptr → Ptr
barrier_queue barrier = barrier + 8

abbrev pub condition_queue : Ptr → Ptr
condition_queue condition = condition + 24

pub record Kernel : Type 0 where
  pub links : Links
  pub pcb : Ptr → Pcb
  pub current_running : Ptr
  pub current_pid : ℕ
  pub next_pid : ℕ
  pub kernel_stack_used : ℕ → Bool
  pub lock_status : Ptr → LockStatus
  pub barrier_goal : Ptr → ℕ
  pub barrier_now : Ptr → ℕ
  pub time_elapsed : ℕ
  pub last_cp0_count : ℕ
  pub screen_cursor_x : ℕ
  pub screen_cursor_y : ℕ
  pub vm : Vm

-- A command on the queues, run on the kernel's state.
abbrev pub with_links : {A : Type 0} → Option (A × Links) → Kernel → Option (A × Kernel)
with_links none k = none
with_links (some (a, s)) k = some (a, record k { links = s })

abbrev pub on_links : {A : Type 0} → Cmd Links A → Cmd Kernel A
on_links m k = with_links (m k.links) k

-- The structure behind a pointer, which must not be NULL.
abbrev pub get_pcb : Ptr → Cmd Kernel Pcb
get_pcb p k = if p == null then none else some (k.pcb p, k)

abbrev pub put_pcb : Ptr → Pcb → Kernel → Kernel
put_pcb p x k = record k { pcb = put k.pcb p x }

-- Some of its fields replaced.
abbrev pub update_pcb : Ptr → (Pcb → Pcb) → Cmd Kernel (Unit {0})
update_pcb p f k = if p == null then none else some (tt, put_pcb p (f (k.pcb p)) k)

abbrev pub get_current : Cmd Kernel Ptr
get_current k = some (k.current_running, k)
