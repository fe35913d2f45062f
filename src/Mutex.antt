-- ===== src/Mutex.antt =====
-- kernel/locking/lock.c: acquiring a mutex lock, and the binary semaphores of the system calls, which
-- are mutex locks in an array. A process that is made ready again owns the lock that it waited for:
-- nothing follows `do_block` in `do_mutex_lock_acquire`.
pub mod Acquire
use ucas_operating_system_la.Base.{ℕ, Bool, ◌+◌, ◌*◌, if◌then◌else◌}
use ucas_operating_system_la.Base.Run.{Cmd, ◌>>=◌, ◌>>◌}
use ucas_operating_system_la.Queue.{Ptr}
use ucas_operating_system_la.Kernel.{Kernel, LockStatus, unlocked, locked, lock_queue}
use ucas_operating_system_la.Wakeup.{proc_get_lock}
use ucas_operating_system_la.Lock.{get_lock_status, set_lock_status, do_mutex_lock_release}
use ucas_operating_system_la.Process.{do_block}

abbrev is_unlocked : LockStatus → Bool
is_unlocked unlocked = Bool.true
is_unlocked locked = Bool.false

pub do_mutex_lock_acquire : Ptr → Cmd Kernel (Unit {0})
do_mutex_lock_acquire lock = do
  s ← get_lock_status lock
  if is_unlocked s
      then (do proc_get_lock lock; set_lock_status lock locked)
      else do_block (lock_queue lock)

-- BINSEM_OP_LOCK and BINSEM_OP_UNLOCK.
pub data BinsemOp : Type 0 where
  binsem_op_lock binsem_op_unlock : BinsemOp

-- `&binsem_list[binsem_id]`, in an array of structures of 24 bytes at `binsem_list`.
abbrev binsem_at : Ptr → ℕ → Ptr
binsem_at binsem_list binsem_id = binsem_list + 24 * binsem_id

pub do_binsem_op : (binsem_list : Ptr) → ℕ → BinsemOp → Cmd Kernel (Unit {0})
unfolding do_mutex_lock_acquire
do_binsem_op binsem_list binsem_id binsem_op_lock =
    do_mutex_lock_acquire (binsem_at binsem_list binsem_id)
do_binsem_op binsem_list binsem_id binsem_op_unlock =
    do_mutex_lock_release (binsem_at binsem_list binsem_id)
