-- ===== src/Cond.antt =====
-- ipc/cond.c: condition variables. `do_condition_wait` releases the lock and blocks; what follows
-- `do_block` there runs when the process is switched to again, and is `do_condition_resume`.
use ucas_operating_system_la.Base.Run.{Cmd, ◌>>◌}
use ucas_operating_system_la.Queue.{Ptr, queue_init}
use ucas_operating_system_la.Kernel.{Kernel, condition_queue, on_links}
use ucas_operating_system_la.Wakeup.{do_unblock_one, do_unblock_all}
use ucas_operating_system_la.Lock.{do_mutex_lock_init, do_mutex_lock_release}
use ucas_operating_system_la.Process.{do_block}
use ucas_operating_system_la.Mutex.{do_mutex_lock_acquire}

-- The lock of a condition is at the condition's own address.
pub do_condition_init : Ptr → Cmd Kernel (Unit {0})
do_condition_init condition = do
  on_links (queue_init (condition_queue condition))
  do_mutex_lock_init condition

pub do_condition_wait : (lock condition : Ptr) → Cmd Kernel (Unit {0})
do_condition_wait lock condition = do
  do_mutex_lock_release lock
  do_block (condition_queue condition)

pub do_condition_resume : (lock : Ptr) → Cmd Kernel (Unit {0})
do_condition_resume lock = do_mutex_lock_acquire lock

pub do_condition_signal : Ptr → Cmd Kernel (Unit {0})
do_condition_signal condition = do_unblock_one (condition_queue condition)

pub do_condition_broadcast : Ptr → Cmd Kernel (Unit {0})
do_condition_broadcast condition = do_unblock_all (condition_queue condition)
