-- ===== src/Barrier/Wait.antt =====
-- What waiting at a barrier does (ipc/barrier.c).
use ucas_operating_system_la.Base.{
  ◌+◌, ◌≤◌, ◌≡◌, ◌≢◌, refl, ap, List, [], ◌++◌, arith, put, ==_ne, ltb, false, ==_refl,
}
use ucas_operating_system_la.Base.Run
use ucas_operating_system_la.Base.Run.{Runs, runs}
use ucas_operating_system_la.Queue.{Ptr, null}
use ucas_operating_system_la.Kernel.{Kernel, barrier_queue, ready_queue}
use ucas_operating_system_la.Kernel.Inv.{Inv, Inv-same}
use ucas_operating_system_la.Wakeup.Unblock.{do_unblock_all-moves}
use ucas_operating_system_la.Barrier.{do_barrier_wait}

-- One more process at the barrier.
abbrev arrived : Ptr → Kernel → Kernel
arrived barrier k = record k { barrier_now = put k.barrier_now barrier (k.barrier_now barrier + 1) }

module _ (k : Kernel) (qs : Ptr → List Ptr) (barrier : Ptr) (v : Inv k qs)
    (hb : barrier ≢ null) where
  arrived-Inv : Inv (arrived barrier k) qs
  arrived-Inv = Inv-same (arrived barrier k) v refl (λ a. (refl, refl))

  -- When the queues are consistent, the process that completes the goal of a barrier makes all that
  -- wait there ready in the order in which they came, resets the count, keeps the goal and runs on.
  pub do_barrier_wait-opens :
      k.barrier_goal barrier ≤ k.barrier_now barrier + 1
      → Runs
          (λ _ k'.
            Inv k' (
              put
                (put qs (barrier_queue barrier) [])
                ready_queue
                (qs ready_queue ++ qs (barrier_queue barrier)))
            × (k'.barrier_now barrier ≡ 0)
            × (k'.barrier_goal barrier ≡ k.barrier_goal barrier)
            × (k'.current_running ≡ k.current_running))
          (do_barrier_wait barrier k)
  unfolding do_barrier_wait
  do_barrier_wait-opens h =
      let nb = ==_ne barrier null hb in
      let full : ltb (k.barrier_now barrier + 1) (k.barrier_goal barrier) ≡ false = ground arith in
      rw nb (
        rw nb (
          rw nb (
            rw (nb, ==_refl barrier)
              (rw full (
                Run.bind
                  (do_unblock_all-moves (arrived barrier k) qs (barrier_queue barrier) arrived-Inv
                    (omega arith) (omega arith))
                  λ _ k1 (v1, kept, spares). rw nb (
                    runs (
                      Inv-same _ v1 refl (λ a. (refl, refl)),
                      ground arith,
                      ap (λ (x : Kernel). x.barrier_goal barrier) kept.rest,
                      ap (λ (x : Kernel). x.current_running) kept.rest,
                    )))))))
