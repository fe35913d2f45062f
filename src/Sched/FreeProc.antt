-- ===== src/Sched/FreeProc.antt =====
-- `free_proc` of kernel/sched/sched.c: the queues stay consistent while a process is taken apart.
use ucas_operating_system_la.Base.{
  ℕ, ◌<◌, Bool, ◌≡◌, ◌≢◌, refl, ap, ◌∙◌, fun_ext, List, arith, ==_ne, ◌==◌,
}
use mathlib.Core.Path.{subst}
use ucas_operating_system_la.Base.Run
use ucas_operating_system_la.Base.Run.{Runs, runs}
use ucas_operating_system_la.Queue.{Ptr, null}
use ucas_operating_system_la.Memory.{free_address_space}
use ucas_operating_system_la.Kernel.{Kernel, Pcb, task_none, waitpid_queue, max_lock, put_pcb}
use ucas_operating_system_la.Kernel.Inv.{Inv, Inv-same, Inv-update, Free}
use ucas_operating_system_la.Kernel.Grown.{Grown, Grown-trans}
use ucas_operating_system_la.Kernel.Keeps.{Moves-trans, Keeps-Moves, Keeps-lock_status}
use ucas_operating_system_la.Sched.{free_proc, free_pcb, free_kernel_stack}
use ucas_operating_system_la.Sched.ReleaseLocks.{
  locks_from, queues_after, statuses_after, Grown-queues_after, release_locks-Gives,
}
use ucas_operating_system_la.Sched.Wake.{woken, Grown-woken, wake_queue-moves}

-- The queues after `free_proc`: its locks are given back from the first slot on, each to the first that
-- waits for it, and then who waits for the process is ready.
abbrev pub freed_queues : Kernel → Ptr → (Ptr → List Ptr) → Ptr → List Ptr
freed_queues k p qs =
    woken (λ a. (k.pcb a).waitpid == (k.pcb p).pid) waitpid_queue
      (queues_after (locks_from max_lock 0 (k.pcb p).locks_got) qs)

-- What `free_proc` leaves of a process, and of all else.
pub record Freed (k : Kernel) (qs : Ptr → List Ptr) (p : Ptr) (k' : Kernel) : Type 0 where
  pub valid : Inv k' (freed_queues k p qs)
  pub locks :
      k'.lock_status ≡ statuses_after (locks_from max_lock 0 (k.pcb p).locks_got) qs k.lock_status
  pub grown : Grown qs (freed_queues k p qs)
  pub gone : ((k'.pcb p).status ≡ task_none) × ((k'.pcb p).pid ≡ 0)
  pub notes : k.current_running ≢ p → (j : ℕ) → j < max_lock → (k'.pcb p).locks_got j ≡ null
  pub others :
      (a : Ptr)
      → a ≢ p
      → k'.pcb a ≡ record (k.pcb a) {
        in_queue = (k'.pcb a).in_queue;
        status = (k'.pcb a).status;
        locks_got = (k'.pcb a).locks_got;
      }
  pub rest : k' ≡ record k {
    links = k'.links;
    pcb = k'.pcb;
    lock_status = k'.lock_status;
    kernel_stack_used = (free_kernel_stack (k.pcb p).kernel_sp k).kernel_stack_used;
    vm = free_address_space (k.pcb p).page_table k.vm;
  }

freed_queues-Grown : (k : Kernel) (p : Ptr) (qs : Ptr → List Ptr) → Grown qs (freed_queues k p qs)
freed_queues-Grown k p qs =
    let ls : List Ptr = locks_from max_lock 0 (k.pcb p).locks_got in
    Grown-trans (Grown-queues_after ls qs) (
      Grown-woken (λ a. (k.pcb a).waitpid == (k.pcb p).pid) waitpid_queue (queues_after ls qs)
        (omega arith) (omega arith))

-- The slot after `free_pcb`.
abbrev emptied : Ptr → Kernel → Kernel
emptied p k =
    let k' : Kernel = put_pcb p (record (k.pcb p) { status = task_none }) k in
    put_pcb p (record (k'.pcb p) { pid = 0 }) k'

pub free_proc-Freed :
    (k : Kernel) (qs : Ptr → List Ptr) (p : Ptr)
    → Inv k qs
    → Free qs p
    → p ≢ null
    → k.current_running ≢ null
    → Runs (λ _. Freed k qs p) (free_proc p k)
unfolding free_proc free_pcb free_kernel_stack
free_proc-Freed k qs p v free hp hc =
    let k1 : Kernel = record k {
      kernel_stack_used = (free_kernel_stack (k.pcb p).kernel_sp k).kernel_stack_used;
      vm = free_address_space (k.pcb p).page_table k.vm;
    } in
    let locks : List Ptr = locks_from max_lock 0 (k.pcb p).locks_got in
    let np = ==_ne p null hp in
    rw np (
      Run.bind
        (release_locks-Gives max_lock 0 k1 qs p (Inv-same k1 v refl (λ a. (refl, refl))) hp hc
          (omega arith))
        λ _ k2 (g, clear).
          Run.bind
            (wake_queue-moves (λ x. x.waitpid == (k.pcb p).pid) (λ x q s. refl) k2
              (queues_after locks qs) waitpid_queue g.valid (omega arith) (omega arith))
            λ _ k3 (v3, kept, spares).
              let m = Moves-trans g.moves (Keeps-Moves kept) in
              let same : (λ (a : Ptr). (k2.pcb a).waitpid == (k.pcb p).pid)
                  ≡ (λ (a : Ptr). (k.pcb a).waitpid == (k.pcb p).pid) =
                fun_ext {A = Ptr} {B = λ a. Bool}
                  λ (a : Ptr). ap (λ (x : Pcb). x.waitpid == (k.pcb p).pid) (g.moves.fields a) in
              let v3' : Inv k3 (freed_queues k p qs) =
                subst (λ (t : Ptr → Bool). Inv k3 (woken t waitpid_queue (queues_after locks qs)))
                  same v3 in
              let grown = freed_queues-Grown k p qs in
              rw np (
                rw np (
                  runs (record {
                    valid =
                        Inv-update k3 (emptied p k3) (freed_queues k p qs) p v3' (grown.free p free)
                          refl (λ a ne. ground arith);
                    locks = Keeps-lock_status kept ∙ g.locks;
                    grown = grown;
                    gone = (ground arith, ground arith);
                    notes = λ ne j l. ground (
                      arith,
                      ap (λ (x : Pcb). x.locks_got j) (kept.fields p),
                      (clear ne j).0 (omega arith) l,
                    );
                    others = λ a ne. ground (arith, m.fields a);
                    rest = ap (λ (x : Kernel). record x { pcb = (emptied p k3).pcb }) m.rest;
                  }))))
