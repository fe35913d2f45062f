-- ===== src/Process/Wait.antt =====
-- `do_waitpid` of kernel/sched/sched.c.
use ucas_operating_system_la.Base.{
  ℕ, ◌≤◌, ◌≡◌, ◌≢◌, refl, ap, ◌∙◌, fun_ext, List, [], ◌∷◌, ◌++◌, arith, put, ==_ne, some, find_from,
  ◌==◌,
}
use mathlib.Core.Path.{subst}
use ucas_operating_system_la.Base.Run.{Runs}
use ucas_operating_system_la.Queue.{Ptr, null, Links}
use ucas_operating_system_la.Queue.Push.{queue_push-append}
use ucas_operating_system_la.Kernel.{
  Kernel, task_blocked, task_running, num_max_task, ready_queue, sleep_queue, waitpid_queue,
  put_pcb, pcb_list,
}
use ucas_operating_system_la.Kernel.Inv.{Inv, Inv-join}
use ucas_operating_system_la.Kernel.Keeps.{on_links-bind}
use ucas_operating_system_la.Time.{get_timer}
use ucas_operating_system_la.Wakeup.Loop.{select}
use ucas_operating_system_la.Sched.{do_scheduler}
use ucas_operating_system_la.Sched.Wake.{due, woken}
use ucas_operating_system_la.Sched.Switch.{Free-running}
use ucas_operating_system_la.Sched.Order.{candidates, rest_ready}
use ucas_operating_system_la.Sched.Context.{SwitchedTo, SwitchedTo-start, do_scheduler-blocked}
use ucas_operating_system_la.Process.{do_waitpid}

-- The current process waits for the process with the identifier `pid`.
abbrev pub waiting_for : ℕ → Kernel → Kernel
waiting_for pid k =
    put_pcb k.current_running
      (record (k.pcb k.current_running) {
        waitpid = pid;
        status = task_blocked;
        in_queue = waitpid_queue;
      })
      k

-- The state in which `do_waitpid` calls `do_scheduler`.
abbrev waiting : ℕ → Kernel → Links → Kernel
waiting pid k s =
    let x : Ptr = k.current_running in
    let k1 : Kernel = put_pcb x (record (k.pcb x) { waitpid = pid }) k in
    let k2 : Kernel = put_pcb x (record (k1.pcb x) { status = task_blocked }) k1 in
    let k3 : Kernel = record k2 { links = s } in
    put_pcb x (record (k3.pcb x) { in_queue = waitpid_queue }) k3

waiting-eq :
    (pid : ℕ) (k : Kernel) (s : Links) → waiting pid k s ≡ record (waiting_for pid k) { links = s }
waiting-eq pid k s = ap (λ f. record k { links = s; pcb = f }) (fun_ext λ a. ground arith)

due-waiting : (pid : ℕ) (k : Kernel) (s : Links) → due (waiting pid k s) ≡ due k
unfolding get_timer
due-waiting pid k s = fun_ext λ a. ground arith

rest_ready-waiting :
    (pid : ℕ) (k : Kernel) (s : Links) (qs : Ptr → List Ptr) (ys : List Ptr)
    → rest_ready (waiting pid k s) qs ys ≡ rest_ready k qs ys
rest_ready-waiting pid k s qs ys =
    ap (λ d. put (woken d sleep_queue qs) ready_queue ys) (due-waiting pid k s)

candidates-waiting :
    (pid : ℕ) (k : Kernel) (s : Links) (qs : Ptr → List Ptr) (zs : List Ptr)
    → candidates (waiting pid k s) (put qs waitpid_queue zs) ≡ candidates k qs
candidates-waiting pid k s qs zs =
    ap (λ d. qs ready_queue ++ select d (qs sleep_queue)) (due-waiting pid k s)

-- When the queues are consistent, the current process runs and is in the table, some slot has the
-- identifier, and some process is ready or due, do_waitpid notes the identifier in the current
-- process, puts it blocked at the end of the queue of waiting processes, and lets the first process
-- that is ready or due run with its cursor; the queues are consistent, and of the processes only
-- status, queue and saved cursor change besides.
pub do_waitpid-SwitchedTo :
    (k : Kernel) (qs : Ptr → List Ptr) (pid i : ℕ) (y : Ptr) (ys : List Ptr)
    → Inv k qs
    → k.current_running ≢ null
    → k.current_running ≤ num_max_task
    → (k.pcb k.current_running).status ≡ task_running
    → find_from (λ j. (k.pcb (pcb_list j)).pid == pid) 0 num_max_task ≡ some i
    → candidates k qs ≡ y ∷ ys
    → Runs
        (λ _.
          SwitchedTo
            (waiting_for pid k)
            y
            (rest_ready k (put qs waitpid_queue (qs waitpid_queue ++ k.current_running ∷ [])) ys))
        (do_waitpid pid k)
unfolding do_waitpid
do_waitpid-SwitchedTo k qs pid i y ys v ne le run found e =
    let x : Ptr = k.current_running in
    let q : Ptr = waitpid_queue in
    let nx = ==_ne x null ne in
    let free = Free-running x v run in
    rw found (
      rw nx (
        rw nx (
          on_links-bind _ _
            (queue_push-append k.links q x (qs q) (v.queues q (omega arith)) ne
              (free q (omega arith)))
            λ _ s pushed.
              let kb : Kernel = waiting pid k s in
              let qb : Ptr → List Ptr = put qs q (qs q ++ x ∷ []) in
              let v1 =
                Inv-join k kb qs x q (qs q) refl v (omega arith) free le pushed
                  (λ a d. ground arith) (ground arith) (ground arith) in
              rw nx (
                SwitchedTo-start s (waiting-eq pid k s) (
                  subst (λ l. Runs (λ _. SwitchedTo kb y l) (do_scheduler kb))
                    (rest_ready-waiting pid k s qb ys)
                    (do_scheduler-blocked kb qb v1 ne le y ys (ground arith)
                      (candidates-waiting pid k s qs (qs q ++ x ∷ []) ∙ e)))))))
