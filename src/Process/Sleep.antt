-- ===== src/Process/Sleep.antt =====
-- `do_sleep` of kernel/sched/sched.c.
use ucas_operating_system_la.Base.{
  ℕ, ◌+◌, ◌%◌, ◌^◌, ◌≤◌, ◌≡◌, ◌≢◌, refl, ap, ◌∙◌, fun_ext, List, [], ◌∷◌, ◌++◌, arith, has-append,
  put, ==_ne, ==_refl,
}
use mathlib.Core.Path.{subst}
use ucas_operating_system_la.Base.Run.{Runs}
use ucas_operating_system_la.Queue.{Ptr, null, Links}
use ucas_operating_system_la.Queue.Push.{queue_push-append}
use ucas_operating_system_la.Kernel.{
  Kernel, task_sleeping, task_running, num_max_task, ready_queue, sleep_queue, put_pcb,
}
use ucas_operating_system_la.Kernel.Inv.{Inv, Inv-join}
use ucas_operating_system_la.Kernel.Keeps.{on_links-bind}
use ucas_operating_system_la.Time.{get_timer}
use ucas_operating_system_la.Wakeup.Loop.{select}
use ucas_operating_system_la.Sched.{do_scheduler}
use ucas_operating_system_la.Sched.Wake.{due, woken}
use ucas_operating_system_la.Sched.Switch.{Free-running}
use ucas_operating_system_la.Sched.Order.{candidates, rest_ready}
use ucas_operating_system_la.Sched.Context.{SwitchedTo, SwitchedTo-start, do_scheduler-asleep}
use ucas_operating_system_la.Process.{do_sleep}

-- The current process sleeps for `t` more ticks.
abbrev pub asleep : ℕ → Kernel → Kernel
asleep t k =
    put_pcb k.current_running
      (record (k.pcb k.current_running) {
        status = task_sleeping;
        sleep_until = (get_timer k + t) % 2 ^ 32;
        in_queue = sleep_queue;
      })
      k

-- The queues then.
abbrev pub with_sleeper : Kernel → (Ptr → List Ptr) → Ptr → List Ptr
with_sleeper k qs = put qs sleep_queue (qs sleep_queue ++ k.current_running ∷ [])

-- The state in which `do_sleep` calls `do_scheduler`.
abbrev slept : ℕ → Kernel → Links → Kernel
slept t k s =
    let x : Ptr = k.current_running in
    let k1 : Kernel = put_pcb x (record (k.pcb x) { status = task_sleeping }) k in
    let k2 : Kernel =
      put_pcb x (record (k1.pcb x) { sleep_until = (get_timer k1 + t) % 2 ^ 32 }) k1 in
    let k3 : Kernel = record k2 { links = s } in
    put_pcb x (record (k3.pcb x) { in_queue = sleep_queue }) k3

slept-eq : (t : ℕ) (k : Kernel) (s : Links) → slept t k s ≡ record (asleep t k) { links = s }
unfolding get_timer
slept-eq t k s = ap (λ f. record k { links = s; pcb = f }) (fun_ext λ a. ground arith)

due-slept : (t : ℕ) (k : Kernel) (s : Links) → due (slept t k s) ≡ due (asleep t k)
unfolding get_timer
due-slept t k s = fun_ext λ a. ground arith

rest_ready-slept :
    (t : ℕ) (k : Kernel) (s : Links) (qs : Ptr → List Ptr) (ys : List Ptr)
    → rest_ready (slept t k s) qs ys ≡ rest_ready (asleep t k) qs ys
rest_ready-slept t k s qs ys =
    ap (λ d. put (woken d sleep_queue qs) ready_queue ys) (due-slept t k s)

candidates-slept :
    (t : ℕ) (k : Kernel) (s : Links) (qs : Ptr → List Ptr)
    → candidates (slept t k s) qs ≡ candidates (asleep t k) qs
candidates-slept t k s qs = ap (λ d. qs ready_queue ++ select d (qs sleep_queue)) (due-slept t k s)

-- When the queues are consistent, the current process runs and is in the table, and some process,
-- this one included, is then ready or due, do_sleep makes it a sleeping process at the end of the
-- sleep queue that is due when the clock is past now plus the time given, both cut to 32 bits, and
-- lets the first process that is then ready or due run, be it the same one, with its cursor; the
-- queues are consistent, and of the processes only status, queue and saved cursor change besides.
pub do_sleep-SwitchedTo :
    (k : Kernel) (qs : Ptr → List Ptr) (t : ℕ) (y : Ptr) (ys : List Ptr)
    → Inv k qs
    → k.current_running ≢ null
    → k.current_running ≤ num_max_task
    → (k.pcb k.current_running).status ≡ task_running
    → candidates (asleep t k) (with_sleeper k qs) ≡ y ∷ ys
    → Runs
        (λ _. SwitchedTo (asleep t k) y (rest_ready (asleep t k) (with_sleeper k qs) ys))
        (do_sleep t k)
unfolding do_sleep
do_sleep-SwitchedTo k qs t y ys v ne le run e =
    let x : Ptr = k.current_running in
    let q : Ptr = sleep_queue in
    let nx = ==_ne x null ne in
    let free = Free-running x v run in
    rw nx (
      on_links-bind _ _
        (queue_push-append k.links q x (qs q) (v.queues q (omega arith)) ne (free q (omega arith)))
        λ _ s pushed.
          let kb : Kernel = slept t k s in
          let qb : Ptr → List Ptr = with_sleeper k qs in
          let v1 =
            Inv-join k kb qs x q (qs q) refl v (omega arith) free le pushed (λ a d. ground arith)
              (ground arith) (ground arith) in
          rw nx (
            SwitchedTo-start s (slept-eq t k s) (
              subst (λ l. Runs (λ _. SwitchedTo kb y l) (do_scheduler kb))
                (rest_ready-slept t k s qb ys)
                (do_scheduler-asleep kb qb v1 ne le y ys
                  (ground (arith, has-append x (qs sleep_queue) (x ∷ []), ==_refl x))
                  (candidates-slept t k s qb ∙ e)))))
