-- ===== src/Tests/Locks.antt =====
-- The locks and the barrier of the concrete kernel.
use ucas_operating_system_la.Base.{some, [], ◌∷◌, ◌≡◌, ◌≢◌, refl, arith, put}
use ucas_operating_system_la.Base.Run.{Runs}
use ucas_operating_system_la.Queue.{Ptr}
use ucas_operating_system_la.Kernel.{ready_queue, locked}
use ucas_operating_system_la.Kernel.Inv.{Inv}
use ucas_operating_system_la.Kernel.Keeps.{Moves}
use ucas_operating_system_la.Lock.{do_mutex_lock_release}
use ucas_operating_system_la.Lock.Release.{do_mutex_lock_release-hands_over}
use ucas_operating_system_la.Mutex.{do_mutex_lock_acquire}
use ucas_operating_system_la.Mutex.Acquire.{Holds, do_mutex_lock_release-acquire}
use ucas_operating_system_la.Barrier.{do_barrier_wait}
use ucas_operating_system_la.Barrier.Wait.{do_barrier_wait-opens}
use ucas_operating_system_la.Tests.Demo.{demo, demo_queues, demo-Inv}

do_mutex_lock_release-hands_over_example :
    Runs
      (λ _ k'.
        Inv k' (put (put demo_queues 108 (6 ∷ [])) ready_queue (3 ∷ 5 ∷ []))
        × (k'.lock_status 100 ≡ locked)
        × ((a : Ptr) → a ≢ 100 → k'.lock_status a ≡ demo.lock_status a)
        × Moves demo k')
      (do_mutex_lock_release 100 demo)
do_mutex_lock_release-hands_over_example =
    do_mutex_lock_release-hands_over demo demo_queues 100 demo-Inv (omega arith) (omega arith)

-- The lock at 300 is free, and nobody waits for it.
do_mutex_lock_release-acquire_example :
    Runs
      (λ _ k'. Holds demo 300 k' × (do_mutex_lock_release 300 k' ≡ some (tt, demo)))
      (do_mutex_lock_acquire 300 demo)
do_mutex_lock_release-acquire_example =
    do_mutex_lock_release-acquire demo demo_queues 300 demo-Inv (omega arith) (omega arith) refl
      refl (λ j h. omega arith)

do_barrier_wait-opens_example :
    Runs
      (λ _ k'.
        Inv k' (put (put demo_queues 208 []) ready_queue (3 ∷ 7 ∷ []))
        × (k'.barrier_now 200 ≡ 0)
        × (k'.barrier_goal 200 ≡ 2)
        × (k'.current_running ≡ 2))
      (do_barrier_wait 200 demo)
do_barrier_wait-opens_example =
    do_barrier_wait-opens demo demo_queues 200 demo-Inv (omega arith) (omega arith)
