-- ===== src/Lock.antt =====
-- kernel/locking/lock.c, the part that the scheduler calls: initialising and releasing a mutex lock.
pub mod Release
use ucas_operating_system_la.Base.{ℕ, ◌-◌, ◌^◌, ltb, ◌%◌, none, some, ◌==◌, if◌then◌else◌, put}
use ucas_operating_system_la.Base.Run.{Cmd, pure, ◌>>=◌, ◌>>◌}
use ucas_operating_system_la.Queue.{Ptr, null, queue_init, queue_is_empty}
use ucas_operating_system_la.Kernel.{Kernel, LockStatus, unlocked, locked, lock_queue, on_links}
use ucas_operating_system_la.Wakeup.{do_unblock_one, proc_get_lock, proc_lose_lock}

abbrev pub num_binsem : ℕ
num_binsem = 32

-- `lock->status`, through a pointer that must not be NULL.
abbrev pub get_lock_status : Ptr → Cmd Kernel LockStatus
get_lock_status lock k = if lock == null then none else some (k.lock_status lock, k)

abbrev pub set_lock_status : Ptr → LockStatus → Cmd Kernel (Unit {0})
set_lock_status lock s k =
    if lock == null then none else some (tt, record k { lock_status = put k.lock_status lock s })

unfoldable pub do_mutex_lock_init : Ptr → Cmd Kernel (Unit {0})
do_mutex_lock_init lock = do set_lock_status lock unlocked; on_links (queue_init (lock_queue lock))

pub do_mutex_lock_release : Ptr → Cmd Kernel (Unit {0})
do_mutex_lock_release lock = do
  proc_lose_lock lock
  empty ← on_links (queue_is_empty (lock_queue lock))
  if empty
      then set_lock_status lock unlocked
      else (do proc_get_lock lock; do_unblock_one (lock_queue lock))

-- `key` is the pattern of an `int`, negative from 2 ^ 31 on. The remainder of a negative key is negative or
-- 0, and becomes a `uint64_t`.
pub do_binsem_get : ℕ → ℕ
do_binsem_get key =
    if ltb key (2 ^ 31) then key % num_binsem else (2 ^ 64 - (2 ^ 32 - key) % num_binsem) % 2 ^ 64
