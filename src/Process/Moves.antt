-- ===== src/Process/Moves.antt =====
-- How a process gives up the processor: `do_block`, `do_sleep` and `do_waitpid` of
-- kernel/sched/sched.c.
use ucas_operating_system_la.Base.{
  ◌≤◌, ◌≡◌, ◌≢◌, refl, ap, ◌∙◌, sym, fun_ext, List, [], ◌∷◌, ◌++◌, arith, put, ==_ne,
}
use mathlib.Core.Path.{subst}
use ucas_operating_system_la.Base.Run.{Runs}
use ucas_operating_system_la.Queue.{Ptr, null, Links}
use ucas_operating_system_la.Queue.Push.{queue_push-append}
use ucas_operating_system_la.Kernel.{
  Kernel, task_running, task_blocked, num_max_task, sleep_queue, ready_queue, put_pcb,
}
use ucas_operating_system_la.Kernel.Inv.{Inv, Inv-join}
use ucas_operating_system_la.Kernel.Keeps.{on_links-bind}
use ucas_operating_system_la.Time.{get_timer}
use ucas_operating_system_la.Wakeup.Loop.{select}
use ucas_operating_system_la.Sched.Wake.{due, woken}
use ucas_operating_system_la.Sched.Switch.{Free-running}
use ucas_operating_system_la.Sched.Order.{candidates, rest_ready}
use ucas_operating_system_la.Sched.Context.{SwitchedTo, SwitchedTo-start, do_scheduler-blocked}
use ucas_operating_system_la.Process.{do_block}
use ucas_operating_system_la.Sched.{do_scheduler}

-- The current process is blocked in the queue `q`.
abbrev pub blocked_on : Ptr → Kernel → Kernel
blocked_on q k =
    put_pcb k.current_running
      (record (k.pcb k.current_running) { status = task_blocked; in_queue = q }) k

-- The state in which `do_block` calls `do_scheduler`.
abbrev blocked_in : Ptr → Kernel → Links → Kernel
blocked_in q k s =
    let x : Ptr = k.current_running in
    let k1 : Kernel = put_pcb x (record (k.pcb x) { status = task_blocked }) k in
    record (put_pcb x (record (k1.pcb x) { in_queue = q }) k1) { links = s }

blocked_in-eq :
    (q : Ptr) (k : Kernel) (s : Links) → blocked_in q k s ≡ record (blocked_on q k) { links = s }
blocked_in-eq q k s = ap (λ f. record k { links = s; pcb = f }) (fun_ext λ a. ground arith)

due-blocked : (q : Ptr) (k : Kernel) (s : Links) → due (blocked_in q k s) ≡ due k
unfolding get_timer
due-blocked q k s = fun_ext λ a. ground arith

rest_ready-blocked :
    (q : Ptr) (k : Kernel) (s : Links) (qs : Ptr → List Ptr) (ys : List Ptr)
    → rest_ready (blocked_in q k s) qs ys ≡ rest_ready k qs ys
rest_ready-blocked q k s qs ys =
    ap (λ t. put (woken t sleep_queue qs) ready_queue ys) (due-blocked q k s)

-- The queue of blocked processes is not one of those that the scheduler takes candidates from.
candidates-blocked :
    (q : Ptr) (k : Kernel) (s : Links) (qs : Ptr → List Ptr) (zs : List Ptr)
    → q ≢ ready_queue
    → q ≢ sleep_queue
    → candidates (blocked_in q k s) (put qs q zs) ≡ candidates k qs
candidates-blocked q k s qs zs nr ns =
    rw (==_ne ready_queue q (λ e. nr (sym e)), ==_ne sleep_queue q (λ e. ns (sym e)))
      (ap (λ t. qs ready_queue ++ select t (qs sleep_queue)) (due-blocked q k s))

module _ (k : Kernel) (qs : Ptr → List Ptr) (v : Inv k qs) (ne : k.current_running ≢ null)
    (le : k.current_running ≤ num_max_task)
    (run : (k.pcb k.current_running).status ≡ task_running) where
  -- When the queues are consistent, the current process runs and is in the table, and some process
  -- is ready or due, do_block puts the current process at the end of the queue it is to wait in,
  -- other than the ready and the sleep queue, and lets the first process that is ready or due run,
  -- with the queues consistent.
  pub do_block-SwitchedTo :
      (q y : Ptr) (ys : List Ptr)
      → q ≢ null
      → q ≢ ready_queue
      → q ≢ sleep_queue
      → candidates k qs ≡ y ∷ ys
      → Runs
          (λ _.
            SwitchedTo
              (blocked_on q k)
              y
              (rest_ready k (put qs q (qs q ++ k.current_running ∷ [])) ys))
          (do_block q k)
  unfolding do_block
  do_block-SwitchedTo q y ys hq nr ns e =
      let x : Ptr = k.current_running in
      let nx = ==_ne x null ne in
      let free = Free-running x v run in
      rw nx (
        rw nx (
          on_links-bind _ _ (queue_push-append k.links q x (qs q) (v.queues q hq) ne (free q hq))
            λ _ s pushed.
              let kb : Kernel = blocked_in q k s in
              let qb : Ptr → List Ptr = put qs q (qs q ++ x ∷ []) in
              let v1 =
                Inv-join k kb qs x q (qs q) refl v hq free le pushed (λ a d. ground arith)
                  (ground arith) (ground arith) in
              SwitchedTo-start s (blocked_in-eq q k s) (
                subst (λ l. Runs (λ _. SwitchedTo kb y l) (do_scheduler kb))
                  (rest_ready-blocked q k s qb ys)
                  (do_scheduler-blocked kb qb v1 ne le y ys (ground arith)
                    (candidates-blocked q k s qs (qs q ++ x ∷ []) nr ns ∙ e)))))
