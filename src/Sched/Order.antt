-- ===== src/Sched/Order.antt =====
-- The order in which `scheduler` of kernel/sched/sched.c lets processes run, and `do_scheduler`.
use ucas_operating_system_la.Base.{
  ◌≤◌, ◌≡◌, ◌≢◌, ap, List, [], ◌∷◌, ◌++◌, arith, put, has, Bool-cases, inl, inr, some,
}
use ucas_operating_system_la.Base.Run
use ucas_operating_system_la.Base.Run.{Runs, runs}
use ucas_operating_system_la.Queue.{Ptr, null}
use ucas_operating_system_la.Kernel.{
  Kernel, Pcb, task_running, task_blocked, sleep_queue, ready_queue, num_max_task,
}
use ucas_operating_system_la.Kernel.Inv.{Inv, Inv-cong}
use ucas_operating_system_la.Kernel.Keeps.{Keeps-trans}
use ucas_operating_system_la.Wakeup.Loop.{select}
use ucas_operating_system_la.Sched.{requeue_current, scheduler}
use ucas_operating_system_la.Sched.Wake.{due, woken, check_sleeping-wakes, not-mem-select}
use ucas_operating_system_la.Sched.Switch.{
  Free-running, take_next-Switched, requeue_current-running,
}
use ucas_operating_system_la.Sched.Passes.{Passes, Switched-Passes}

-- The ready processes in the order in which the scheduler finds them: those that were ready, and
-- behind them the sleeping ones that are due.
abbrev pub candidates : Kernel → (Ptr → List Ptr) → List Ptr
candidates k qs = qs ready_queue ++ select (due k) (qs sleep_queue)

-- The queues after `scheduler`, when it leaves `ys` ready.
abbrev pub rest_ready : Kernel → (Ptr → List Ptr) → List Ptr → Ptr → List Ptr
rest_ready k qs ys = put (woken (due k) sleep_queue qs) ready_queue ys

requeue_current-blocked :
    (k : Kernel)
    → k.current_running ≢ null
    → (k.pcb k.current_running).status ≡ task_blocked
    → requeue_current k ≡ some (tt, k)
unfolding requeue_current
requeue_current-blocked k ne e = ground arith

module _ (k : Kernel) (qs : Ptr → List Ptr) (v : Inv k qs) (ne : k.current_running ≢ null)
    (le : k.current_running ≤ num_max_task) where
  -- Round robin: a running process is put behind all that are ready or due, and the first of these
  -- runs; a process that is alone runs on.
  pub scheduler-round_robin :
      (y : Ptr) (ys : List Ptr)
      → (k.pcb k.current_running).status ≡ task_running
      → (k.pcb k.current_running).pid ≢ 0
      → candidates k qs ++ k.current_running ∷ [] ≡ y ∷ ys
      → Runs
          (λ _ k'.
            Inv k' (rest_ready k qs ys)
            × (k'.current_running ≡ y)
            × (y ≢ null)
            × ((k'.pcb y).status ≡ task_running)
            × Passes k y k')
          (scheduler k)
  unfolding scheduler
  scheduler-round_robin y ys run np e =
      Run.bind (check_sleeping-wakes k qs v) λ _ k1 (v1, kept, spares).
        let x : Ptr = k.current_running in
        let c = ap (λ (z : Kernel). z.current_running) kept.rest in
        let same : k1.pcb x ≡ k.pcb x = spares x (
          not-mem-select (due k) (qs sleep_queue) x
            (Free-running x v run sleep_queue (omega arith))) in
        Run.bind
          (requeue_current-running k1 (woken (due k) sleep_queue qs) v1 (rw c ne) (rw c le)
            (rw (c, same) run) (rw (c, same) np))
          λ _ k2 (v2, mine, others, kept2).
            Run.mono
              (take_next-Switched k2
                (put (woken (due k) sleep_queue qs) ready_queue
                  (candidates k qs ++ k1.current_running ∷ []))
                y ys v2 (rw c e))
              λ _ k3 (v3, w). (
                Inv-cong _ (rest_ready k qs ys) (λ r. ground arith) v3,
                w.current,
                w.valid,
                ap (λ (p : Pcb). p.status) w.process,
                Switched-Passes y (Keeps-trans kept kept2) w,
              )

  -- A blocked process stays where it waits, and the first process that is ready or due runs.
  pub scheduler-blocked :
      (y : Ptr) (ys : List Ptr)
      → (k.pcb k.current_running).status ≡ task_blocked
      → candidates k qs ≡ y ∷ ys
      → Runs
          (λ _ k'.
            Inv k' (rest_ready k qs ys)
            × (k'.current_running ≡ y)
            × (y ≢ null)
            × ((k'.pcb y).status ≡ task_running)
            × Passes k y k')
          (scheduler k)
  unfolding scheduler
  scheduler-blocked y ys blocked e =
      Run.bind (check_sleeping-wakes k qs v) λ _ k1 (v1, kept, spares).
        let x : Ptr = k.current_running in
        let c = ap (λ (z : Kernel). z.current_running) kept.rest in
        let same : k1.pcb x ≡ k.pcb x = spares x (
          not-mem-select (due k) (qs sleep_queue) x (elim (Bool-cases (has x (qs sleep_queue))) [
            | inl i ↦ ground (arith, v.status sleep_queue x (omega arith) i)
            | inr i ↦ i
          ])) in
        rw (requeue_current-blocked k1 (rw c ne) (rw (c, same) blocked)) (
          Run.mono (take_next-Switched k1 (woken (due k) sleep_queue qs) y ys v1 e) λ _ k2 (v2, w).
            (
              Inv-cong _ (rest_ready k qs ys) (λ r. ground arith) v2,
              w.current,
              w.valid,
              ap (λ (p : Pcb). p.status) w.process,
              Switched-Passes y kept w,
            ))
