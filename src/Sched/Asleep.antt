-- ===== src/Sched/Asleep.antt =====
-- `scheduler` and `do_scheduler` (kernel/sched/sched.c) when the current process has gone to sleep.
use ucas_operating_system_la.Base.{
  ◌≡◌, ◌≢◌, ap, ◌⊎◌, inl, inr, List, ◌∷◌, arith, true, has, has-append, some,
}
use ucas_operating_system_la.Base.Run
use ucas_operating_system_la.Base.Run.{Runs}
use ucas_operating_system_la.Queue.{Ptr, null}
use ucas_operating_system_la.Kernel.{
  Kernel, Pcb, task_ready, task_sleeping, task_running, ready_queue, sleep_queue,
}
use ucas_operating_system_la.Kernel.Inv.{Inv, Inv-cong}
use ucas_operating_system_la.Wakeup.Loop.{select}
use ucas_operating_system_la.Sched.{requeue_current, scheduler}
use ucas_operating_system_la.Sched.Wake.{due, woken, has-select, check_sleeping-wakes}
use ucas_operating_system_la.Sched.Switch.{take_next-Switched}
use ucas_operating_system_la.Sched.Passes.{Passes, Switched-Passes}
use ucas_operating_system_la.Sched.Order.{candidates, rest_ready}

requeue_current-idle :
    (k : Kernel)
    → k.current_running ≢ null
    → ((k.pcb k.current_running).status ≡ task_ready)
      ⊎ ((k.pcb k.current_running).status ≡ task_sleeping)
    → requeue_current k ≡ some (tt, k)
unfolding requeue_current
requeue_current-idle k ne e = ground arith

-- A process that slept is ready or still asleep after `check_sleeping`.
woken-status :
    (k k1 : Kernel) (qs : Ptr → List Ptr) (x : Ptr)
    → Inv k1 (woken (due k) sleep_queue qs)
    → has x (qs sleep_queue) ≡ true
    → ((k1.pcb x).status ≡ task_ready) ⊎ ((k1.pcb x).status ≡ task_sleeping)
woken-status k k1 qs x v h = elim (has-select (due k) (qs sleep_queue) x h) [
  | inl up ↦ inl (
      v.status ready_queue x (omega arith)
        (ground (arith, has-append x (qs ready_queue) (select (due k) (qs sleep_queue)))))
  | inr down ↦ inr (v.status sleep_queue x (omega arith) down)
]

-- The first process that is ready or due runs, be it the one that went to sleep.
pub scheduler-asleep :
    (k : Kernel) (qs : Ptr → List Ptr) (y : Ptr) (ys : List Ptr)
    → Inv k qs
    → k.current_running ≢ null
    → has k.current_running (qs sleep_queue) ≡ true
    → candidates k qs ≡ y ∷ ys
    → Runs
        (λ _ k'.
          Inv k' (rest_ready k qs ys)
          × (k'.current_running ≡ y)
          × (y ≢ null)
          × ((k'.pcb y).status ≡ task_running)
          × Passes k y k')
        (scheduler k)
unfolding scheduler
scheduler-asleep k qs y ys v ne asleep e =
    Run.bind (check_sleeping-wakes k qs v) λ _ k1 (v1, kept, spares).
      let x : Ptr = k.current_running in
      let c = ap (λ (z : Kernel). z.current_running) kept.rest in
      rw (requeue_current-idle k1 (rw c ne) (rw c (woken-status k k1 qs x v1 asleep))) (
        Run.mono (take_next-Switched k1 (woken (due k) sleep_queue qs) y ys v1 e) λ _ k2 (v2, w). (
          Inv-cong _ (rest_ready k qs ys) (λ r. ground arith) v2,
          w.current,
          w.valid,
          ap (λ (p : Pcb). p.status) w.process,
          Switched-Passes y kept w,
        ))
