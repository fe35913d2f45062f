-- ===== src/Sched/Turns.antt =====
-- How long a ready process waits for `do_scheduler` of kernel/sched/sched.c to let it run.
use mathlib.Core.List.{append_assoc}
use ucas_operating_system_la.Base.{
  ℕ, zero, suc, ◌≤◌, ◌≡◌, ◌≢◌, refl, ap, ◌∙◌, arith, List, [], ◌∷◌, ◌++◌, length, put, ==_refl,
  ==_ne,
}
use ucas_operating_system_la.Base.Run
use ucas_operating_system_la.Base.Run.{Cmd, Runs, runs, pure, ◌>>=◌, ◌>>◌}
use ucas_operating_system_la.Queue.{Ptr, null}
use ucas_operating_system_la.Kernel.{
  Kernel, Pcb, task_running, sleep_queue, ready_queue, num_max_task,
}
use ucas_operating_system_la.Kernel.Inv.{Inv, Inv-same}
use ucas_operating_system_la.Wakeup.Loop.{select}
use ucas_operating_system_la.Sched.{scheduler, save_cursor, restore_cursor, do_scheduler, modify}
use ucas_operating_system_la.Sched.Wake.{due, woken, check_sleeping-wakes}
use ucas_operating_system_la.Sched.Switch.{requeue_current-Requeued, take_next-Switched}
use ucas_operating_system_la.Sched.Context.{saved}

-- The queues are consistent, the current process is in the table, and `l` leads the ready queue.
abbrev pub Waiting : List Ptr → Kernel → Type 0
Waiting l k =
    (qs : Ptr → List Ptr) × (more : List Ptr) × Inv k qs
    × (qs ready_queue ≡ l ++ more)
    × (k.current_running ≢ null)
    × (k.current_running ≤ num_max_task)

-- Its turn has come for `x`.
abbrev pub HasTurn : Ptr → Kernel → Type 0
HasTurn x k = (k.current_running ≡ x) × ((k.pcb x).status ≡ task_running)

regroup :
    (x : Ptr) (xs more woke extra : List Ptr)
    → ((x ∷ xs ++ more) ++ woke) ++ extra ≡ x ∷ (xs ++ ((more ++ woke) ++ extra))
regroup x xs more woke extra = simp append_assoc

scheduler-Waiting :
    (k : Kernel) (x : Ptr) (xs : List Ptr)
    → Waiting (x ∷ xs) k
    → Runs (λ _ k'. HasTurn x k' × Waiting xs k') (scheduler k)
unfolding scheduler
scheduler-Waiting k x xs (qs, more, v, e, ne, le) =
    Run.bind (check_sleeping-wakes k qs v) λ _ k1 (v1, kept, spares).
      let c = ap (λ (z : Kernel). z.current_running) kept.rest in
      Run.bind (requeue_current-Requeued k1 (woken (due k) sleep_queue qs) v1 (rw c ne) (rw c le))
        λ _ k2 (lists, v2, (extra, grew)).
          let woke : List Ptr = select (due k) (qs sleep_queue) in
          let rest : List Ptr = (more ++ woke) ++ extra in
          let order : lists ready_queue ≡ x ∷ (xs ++ rest) =
            grew ∙ ap (λ l. (l ++ woke) ++ extra) e ∙ regroup x xs more woke extra in
          Run.mono (take_next-Switched k2 lists x (xs ++ rest) v2 order) λ _ k' (v', w). (
            (w.current, ap (λ (p : Pcb). p.status) w.process),
            (
              put lists ready_queue (xs ++ rest),
              rest,
              v',
              ground arith,
              rw w.current w.valid,
              rw w.current
                  (v2.in_table ready_queue x (omega arith) (rw order (ground (arith, ==_refl x)))),
            ),
          )

pub do_scheduler-Waiting :
    (k : Kernel) (x : Ptr) (xs : List Ptr)
    → Waiting (x ∷ xs) k
    → Runs (λ _ k'. HasTurn x k' × Waiting xs k') (do_scheduler k)
unfolding do_scheduler save_cursor restore_cursor
do_scheduler-Waiting k x xs (qs, more, v, e, ne, le) = rw (==_ne k.current_running null ne) (
    Run.bind
      (scheduler-Waiting (saved k) x xs
        (qs, more, Inv-same (saved k) v refl (λ a. ground arith), e, ne, le))
      λ _ k1 ((c, run), (qs', more', v', e', ne', le')).
        rw (==_ne k1.current_running null ne')
          (runs ((c, run), (qs', more', Inv-same _ v' refl (λ a. (refl, refl)), e', ne', le'))))

-- `n` calls of `do_scheduler`. Before each, the process that runs does `between`.
pub turns : (between : ℕ → Kernel → Kernel) → ℕ → Cmd Kernel (Unit {0})
turns between zero = pure tt
turns between (suc n) = do modify (between n); do_scheduler; turns between n

-- When the queues are consistent, the current process is in the table, and no process that runs in
-- between breaks that or takes anything from the front of the ready queue, a process that waits
-- behind others in the ready queue runs after one call of do_scheduler for each of them and one for
-- itself, whatever wakes up, exits or blocks meanwhile.
pub turns-HasTurn :
    (between : ℕ → Kernel → Kernel)
    → ((i : ℕ) (k : Kernel) (l : List Ptr) → Waiting l k → Waiting l (between i k))
    → (x : Ptr) (xs : List Ptr) (k : Kernel) → Waiting (xs ++ x ∷ []) k
    → Runs (λ _. HasTurn x) (turns between (suc (length xs)) k)
unfolding turns
turns-HasTurn between calm x [] k v =
    Run.bind (do_scheduler-Waiting (between 0 k) x [] (calm 0 k (x ∷ []) v))
      λ r k' (turn, rest). runs turn
turns-HasTurn between calm x (y ∷ ys) k v =
    Run.bind
      (do_scheduler-Waiting (between (suc (length ys)) k) y (ys ++ x ∷ [])
        (calm (suc (length ys)) k (y ∷ ys ++ x ∷ []) v))
      λ r k' (turn, rest). turns-HasTurn between calm x ys k' rest
