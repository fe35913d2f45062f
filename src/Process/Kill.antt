-- ===== src/Process/Kill.antt =====
-- `do_kill` of kernel/sched/sched.c.
use ucas_operating_system_la.Base.{
  Bool, ℕ, ◌<◌, ◌≡◌, ◌≢◌, refl, ap, ◌∙◌, fun_ext, List, ◌∷◌, ◌++◌, arith, true, false, has,
  has-append, put, ==_ne, ==_refl, some, find_from, ◌==◌,
}
use mathlib.Core.Path.{subst, ap₂}
use ucas_operating_system_la.Base.Run
use ucas_operating_system_la.Base.Run.{Runs, runs}
use ucas_operating_system_la.Queue.{Ptr, null}
use ucas_operating_system_la.Queue.Remove.{queue_remove-append}
use ucas_operating_system_la.Kernel.{
  Kernel, Status, task_none, task_running, task_exited, is_status, num_max_task, pcb_list,
  waitpid_queue, max_lock, put_pcb,
}
use ucas_operating_system_la.Kernel.Inv.{Inv, Inv-remove, Free, status_in}
use ucas_operating_system_la.Kernel.Grown.{Grown}
use ucas_operating_system_la.Kernel.Keeps.{on_links-bind}
use ucas_operating_system_la.Sched.FreeProc.{freed_queues, free_proc-Freed}
use ucas_operating_system_la.Sched.ReleaseLocks.{locks_from, queues_after, statuses_after}
use ucas_operating_system_la.Sched.Wake.{woken}
use ucas_operating_system_la.Process.{kill_slot, killed, do_kill}

-- The process `p`, which was in the queue `q` between `ys` and `zs`, is gone.
pub record Killed (k : Kernel) (qs : Ptr → List Ptr) (q : Ptr) (ys zs : List Ptr) (p : Ptr)
    (k' : Kernel) : Type 0 where
  pub inv : Inv k' (freed_queues k p (put qs q (ys ++ zs)))
  pub grown : Grown (put qs q (ys ++ zs)) (freed_queues k p (put qs q (ys ++ zs)))
  pub gone : Free (freed_queues k p (put qs q (ys ++ zs))) p
  pub slot : ((k'.pcb p).status ≡ task_none) × ((k'.pcb p).pid ≡ 0)
  pub locks :
      k'.lock_status
      ≡ statuses_after
          (locks_from max_lock 0 (k.pcb p).locks_got)
          (put qs q (ys ++ zs))
          k.lock_status
  pub notes : k.current_running ≢ p → (j : ℕ) → j < max_lock → (k'.pcb p).locks_got j ≡ null
  pub others :
      (a : Ptr)
      → a ≢ p
      → k'.pcb a ≡ record (k.pcb a) {
        in_queue = (k'.pcb a).in_queue;
        status = (k'.pcb a).status;
        locks_got = (k'.pcb a).locks_got;
      }

waits-not-running : (q : Ptr) (s : Status) → s ≡ status_in q → is_status s task_running ≡ false
waits-not-running q s e = rw e (ground arith)

module _ (k : Kernel) (qs : Ptr → List Ptr) (v : Inv k qs) (hc : k.current_running ≢ null) (i : ℕ)
    (q : Ptr) (hq : q ≢ null) (ys zs : List Ptr) (cut : qs q ≡ ys ++ pcb_list i ∷ zs) where
  kill_slot-Killed : Runs (λ _. Killed k qs q ys zs (pcb_list i)) (kill_slot i k)
  unfolding kill_slot
  kill_slot-Killed =
      let p : Ptr = pcb_list i in
      let hp : p ≢ null = omega arith in
      let np = ==_ne p null hp in
      let mine : has p (qs q) ≡ true =
        rw cut (ground (arith, has-append p ys (p ∷ zs), ==_refl p)) in
      let is = rw cut at (v.queues q hq) in
      let idle = waits-not-running q (k.pcb p).status (v.status q p hq mine) in
      rw np (
        rw idle (
          rw (v.member q p hq mine) (
            rw np (
              on_links-bind _ _ (queue_remove-append k.links q ys p zs is)
                λ a s (next, is', out, pn, nn).
                  let k2 : Kernel =
                    record (put_pcb p (record (k.pcb p) { status = task_exited; in_queue = q }) k) {
                      links = s;
                    } in
                  let (v2, free) =
                    Inv-remove k k2 qs p v q hq ys zs cut is' out (λ b d. ground arith) in
                  let notes : (k2.pcb p).locks_got ≡ (k.pcb p).locks_got = ground arith in
                  let test : (a : Ptr)
                      → (k2.pcb a).waitpid == (k2.pcb p).pid ≡ (k.pcb a).waitpid == (k.pcb p).pid =
                    λ a. ground arith in
                  let same : freed_queues k2 p (put qs q (ys ++ zs))
                      ≡ freed_queues k p (put qs q (ys ++ zs)) =
                    ap₂
                      (λ (t : Ptr → Bool) (n : ℕ → Ptr).
                        woken t waitpid_queue
                          (queues_after (locks_from max_lock 0 n) (put qs q (ys ++ zs))))
                      (fun_ext λ (a : Ptr). test a) notes in
                  Run.mono (free_proc-Freed k2 (put qs q (ys ++ zs)) p v2 free hp hc) λ _ k3 f.
                    record {
                      inv = subst (λ ls. Inv k3 ls) same f.valid;
                      grown = subst (λ ls. Grown (put qs q (ys ++ zs)) ls) same f.grown;
                      gone = subst (λ ls. Free ls p) same (f.grown.free p free);
                      slot = f.gone;
                      locks =
                          f.locks
                          ∙ ap
                              (λ n.
                                statuses_after (locks_from max_lock 0 n) (put qs q (ys ++ zs))
                                  k.lock_status)
                              notes;
                      notes = f.notes;
                      others = λ a ne. ground (arith, f.others a ne);
                    }))))

  -- When the queues are consistent and there is a current process, do_kill of an identifier whose
  -- first slot holds a process that is in a queue returns 0: its slot is free, it is in no queue,
  -- the others of its queue keep their order until its locks are given back slot by slot, each to
  -- the first process that waits for it, and those that wait for it are woken, in their order, to
  -- the end of the ready queue; the locks get the status that this leaves, its notes of locks are
  -- cleared unless it is the current process, the queues stay consistent, and of another process
  -- only status, queue and notes of locks change.
  pub do_kill-Killed :
      (pid : ℕ)
      → find_from (λ j. (k.pcb (pcb_list j)).pid == pid) 0 num_max_task ≡ some i
      → Runs (λ r k'. (r ≡ killed) × Killed k qs q ys zs (pcb_list i) k') (do_kill pid k)
  unfolding do_kill
  do_kill-Killed pid found = rw found (Run.bind kill_slot-Killed λ _ k' w. runs (refl, w))
