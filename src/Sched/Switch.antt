-- ===== src/Sched/Switch.antt =====
-- `scheduler` of kernel/sched/sched.c: the queues stay consistent, and the first ready process runs.
use ucas_operating_system_la.Base.{
  ℕ, ◌≤◌, ◌≡◌, ◌≢◌, refl, ap, ◌∙◌, sym, true, bnot, ◌&&◌, List, [], ◌∷◌, ◌++◌, arith, put, has,
  Bool-cases, inl, inr, ==_ne, ==_refl, ◌==◌,
}
use mathlib.Core.Path.{ap₂}
use mathlib.Core.List.{append-nil}
use ucas_operating_system_la.Memory.{Addr}
use ucas_operating_system_la.Base.Run
use ucas_operating_system_la.Base.Run.{Runs, runs}
use ucas_operating_system_la.Queue.{Ptr, null}
use ucas_operating_system_la.Queue.Spec.{next-first}
use ucas_operating_system_la.Queue.Dequeue.{queue_dequeue-cons}
use ucas_operating_system_la.Queue.Push.{queue_push-append}
use ucas_operating_system_la.Kernel.{
  Kernel, Pcb, Status, task_running, task_ready, task_exited, is_status, sleep_queue, ready_queue,
  num_max_task,
}
use ucas_operating_system_la.Kernel.Inv.{Inv, Inv-remove, Inv-join, Free, status_in}
use ucas_operating_system_la.Kernel.Keeps.{on_links-bind, Keeps}
use ucas_operating_system_la.Wakeup.Loop.{select}
use ucas_operating_system_la.Sched.{requeue_current, take_next, scheduler}
use ucas_operating_system_la.Sched.Wake.{due, woken, check_sleeping-wakes}
use ucas_operating_system_la.Sched.FreeProc.{freed_queues, free_proc-Freed}

-- A process that runs or has exited is in no queue.
Free-of_status :
    {k : Kernel} {qs : Ptr → List Ptr} (x : Ptr)
    → Inv k qs
    → ((q : Ptr) → (k.pcb x).status ≢ status_in q)
    → Free qs x
Free-of_status {qs} x v ne q hq = elim (Bool-cases (has x (qs q))) [
  | inl i ↦ absurd (ne q (v.status q x hq i))
  | inr i ↦ i
]

running-ne : (q : Ptr) → task_running ≢ status_in q
running-ne q = ground arith

exited-ne : (q : Ptr) → task_exited ≢ status_in q
exited-ne q = ground arith

pub Free-running :
    {k : Kernel} {qs : Ptr → List Ptr} (x : Ptr)
    → Inv k qs
    → (k.pcb x).status ≡ task_running
    → Free qs x
Free-running x v e = Free-of_status x v (λ q. rw e (running-ne q))

Free-exited :
    {k : Kernel} {qs : Ptr → List Ptr} (x : Ptr)
    → Inv k qs
    → (k.pcb x).status ≡ task_exited
    → Free qs x
Free-exited x v e = Free-of_status x v (λ q. rw e (exited-ne q))

-- The process `x` has been switched to, and the others are as before.
pub record Switched (k : Kernel) (x : Ptr) (k' : Kernel) : Type 0 where
  pub current : k'.current_running ≡ x
  pub valid : x ≢ null
  pub process : k'.pcb x ≡ record (k.pcb x) { status = task_running; in_queue = null }
  pub pid : k'.current_pid ≡ (k.pcb x).pid
  pub space : k'.vm.current_pgd ≡ (k.pcb x).page_table
  pub others : (a : Ptr) → a ≢ x → k'.pcb a ≡ k.pcb a
  pub rest : k' ≡ record k {
    links = k'.links;
    pcb = k'.pcb;
    current_running = x;
    current_pid = (k.pcb x).pid;
    vm = record (k.vm) { current_pgd = (k.pcb x).page_table };
  }

-- `take_next` switches to the first ready process, which leaves the ready queue.
pub take_next-Switched :
    (k : Kernel) (qs : Ptr → List Ptr) (x : Ptr) (xs : List Ptr)
    → Inv k qs
    → qs ready_queue ≡ x ∷ xs
    → Runs (λ _ k'. Inv k' (put qs ready_queue xs) × Switched k x k') (take_next k)
unfolding take_next
take_next-Switched k qs x xs v e =
    let is = rw e at (v.queues ready_queue (omega arith)) in
    let ne = (next-first ready_queue [] x xs is).1 in
    let nx = ==_ne x null ne in
    on_links-bind k _ (queue_dequeue-cons k.links ready_queue x xs is) λ a s (got, is', out, p, n).
      rw (got, nx)
        (rw nx (
          rw nx (
            runs (
              (Inv-remove k _ qs x v ready_queue (omega arith) [] xs e is' out
                  (λ a d. ground arith)).0,
              record {
                current = refl;
                valid = ne;
                process = ground arith;
                pid = ground arith;
                space = ground arith;
                others = λ a d. ground arith;
                rest =
                    let p : Pcb = record (k.pcb x) { status = task_running } in
                    let after : Ptr → Pcb =
                      put (put k.pcb x p) x (record (put k.pcb x p x) { in_queue = null }) in
                    let i : (after x).pid ≡ (k.pcb x).pid = ground arith in
                    let t : (after x).page_table ≡ (k.pcb x).page_table = ground arith in
                    ap₂
                      (λ (n : ℕ) (g : Addr). record k {
                        links = s;
                        pcb = after;
                        current_running = x;
                        current_pid = n;
                        vm = record (k.vm) { current_pgd = g };
                      })
                      i t;
              },
            ))))

-- A running process other than the first goes to the end of the ready queue.
pub requeue_current-running :
    (k : Kernel) (qs : Ptr → List Ptr)
    → Inv k qs
    → k.current_running ≢ null
    → k.current_running ≤ num_max_task
    → (k.pcb k.current_running).status ≡ task_running
    → (k.pcb k.current_running).pid ≢ 0
    → Runs
        (λ _ k'.
          Inv k' (put qs ready_queue (qs ready_queue ++ k.current_running ∷ []))
          × (k'.pcb k.current_running
              ≡ record (k.pcb k.current_running) { status = task_ready; in_queue = ready_queue })
          × ((a : Ptr) → a ≢ k.current_running → k'.pcb a ≡ k.pcb a)
          × Keeps k k')
        (requeue_current k)
unfolding requeue_current
requeue_current-running k qs v ne le run np =
    let x : Ptr = k.current_running in
    let free = Free-running x v run in
    let nx = ==_ne x null ne in
    let is = v.queues ready_queue (omega arith) in
    rw nx (
      rw (==_ne (k.pcb x).pid 0 np, run)
        (rw nx (
          on_links-bind _ _
            (queue_push-append k.links ready_queue x (qs ready_queue) is ne
              (free ready_queue (omega arith)))
            λ _ s pushed. rw nx (
              runs (
                Inv-join k _ qs x ready_queue (qs ready_queue) refl v (omega arith) free le pushed
                    (λ a d. ground arith) (ground arith) (ground arith),
                ground arith,
                λ a d. ground arith,
                record { rest = refl; fields = λ a. ground arith },
              )))))

-- Whatever the process that was running, the queues stay consistent and the ready queue grows at its
-- end.
abbrev pub Requeued : (Ptr → List Ptr) → Kernel → Type 0
Requeued qs k' =
    (lists : Ptr → List Ptr) × Inv k' lists
    × ((more : List Ptr) × (lists ready_queue ≡ qs ready_queue ++ more))

is_running-eq : (s : Status) → is_status s task_running ≡ true → s ≡ task_running
is_running-eq task_running h = refl
is_running-eq _ h = ground arith

is_exited-eq : (s : Status) → is_status s task_exited ≡ true → s ≡ task_exited
is_exited-eq task_exited h = refl
is_exited-eq _ h = ground arith

pub requeue_current-Requeued :
    (k : Kernel) (qs : Ptr → List Ptr)
    → Inv k qs
    → k.current_running ≢ null
    → k.current_running ≤ num_max_task
    → Runs (λ _. Requeued qs) (requeue_current k)
unfolding requeue_current
requeue_current-Requeued k qs v ne le =
    let x : Ptr = k.current_running in
    let p : Pcb = k.pcb x in
    let nx = ==_ne x null ne in
    elim (Bool-cases (bnot (p.pid == 0) && is_status p.status task_running)) [
      | inl c ↦
          let e = is_running-eq p.status (ground arith) in
          let np : p.pid ≢ 0 = ground arith in
          Run.mono (requeue_current-running k qs v ne le e np) λ _ k' (v', mine, others, kept).
            (put qs ready_queue (qs ready_queue ++ x ∷ []), v', (x ∷ [], refl))
      | inr c ↦ elim (Bool-cases (is_status p.status task_exited)) [
        | inl c' ↦
            let e = is_exited-eq p.status c' in
            rw nx (
              rw (c, c')
                (Run.mono (free_proc-Freed k qs x v (Free-exited x v e) ne ne)
                  λ _ k' f. (freed_queues k x qs, f.valid, f.grown.ready)))
        | inr c' ↦ rw nx (rw (c, c') (runs (qs, v, ([], sym (append-nil (qs ready_queue))))))
      ]
    ]

-- The process `x` runs, and is in no queue; what the other processes wait for is consistent.
pub record Scheduled (x : Ptr) (k : Kernel) : Type 0 where
  pub lists : Ptr → List Ptr
  pub inv : Inv k lists
  pub current : k.current_running ≡ x
  pub valid : x ≢ null
  pub in_table : x ≤ num_max_task
  pub running : (k.pcb x).status ≡ task_running
  pub queueless : (k.pcb x).in_queue ≡ null
  pub free : Free lists x
  pub pid : k.current_pid ≡ (k.pcb x).pid
  pub space : k.vm.current_pgd ≡ (k.pcb x).page_table

take_next-Scheduled :
    (k : Kernel) (qs : Ptr → List Ptr) (x : Ptr) (xs : List Ptr)
    → Inv k qs
    → qs ready_queue ≡ x ∷ xs
    → Runs (λ _. Scheduled x) (take_next k)
take_next-Scheduled k qs x xs v e = Run.mono (take_next-Switched k qs x xs v e) λ _ k' (v', w).
    let run : (k'.pcb x).status ≡ task_running = ap (λ (p : Pcb). p.status) w.process in
    record {
      lists = put qs ready_queue xs;
      inv = v';
      current = w.current;
      valid = w.valid;
      in_table = v.in_table ready_queue x (omega arith) (rw e (ground (arith, ==_refl x)));
      running = run;
      queueless = ap (λ (p : Pcb). p.in_queue) w.process;
      free = Free-running x v' run;
      pid = w.pid ∙ sym (ap (λ (p : Pcb). p.pid) w.process);
      space = w.space ∙ sym (ap (λ (p : Pcb). p.page_table) w.process);
    }

-- Whatever the current process, which is in the table, was doing, also if it has exited, when the
-- queues are consistent and a process is ready, scheduler ends with the first ready process running,
-- in no queue, with its identifier and page directory in force, and consistent queues.
pub scheduler-Scheduled :
    (k : Kernel) (qs : Ptr → List Ptr) (x : Ptr) (xs : List Ptr)
    → Inv k qs
    → k.current_running ≢ null
    → k.current_running ≤ num_max_task
    → qs ready_queue ≡ x ∷ xs
    → Runs (λ _. Scheduled x) (scheduler k)
unfolding scheduler
scheduler-Scheduled k qs x xs v ne le e =
    Run.bind (check_sleeping-wakes k qs v) λ _ k1 (v1, kept, spares).
      let c = ap (λ (z : Kernel). z.current_running) kept.rest in
      Run.bind (requeue_current-Requeued k1 (woken (due k) sleep_queue qs) v1 (rw c ne) (rw c le))
        λ _ k2 (lists, v2, (more, grew)).
          take_next-Scheduled k2 lists x ((xs ++ select (due k) (qs sleep_queue)) ++ more) v2
            (grew ∙ ap (λ l. (l ++ select (due k) (qs sleep_queue)) ++ more) e)
