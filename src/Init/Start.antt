-- ===== src/Init/Start.antt =====
-- What init/main.c sets up is consistent before the first process is there.
use ucas_operating_system_la.Base.{
  ℕ, zero, suc, ◌+◌, ◌≤◌, ◌≢◌, arith, [], ◌==◌, ==_ne, ==_iff, Bool-cases, inl, inr,
}
use ucas_operating_system_la.Base.Run
use ucas_operating_system_la.Base.Run.{Runs, runs, ◌>>◌}
use ucas_operating_system_la.Queue.{Ptr, null, Links, queue_init}
use ucas_operating_system_la.Queue.Spec.{IsQueue, IsQueue-other}
use ucas_operating_system_la.Queue.Push.{queue_init-nil}
use ucas_operating_system_la.Kernel.{Kernel, lock_queue, num_max_task}
use ucas_operating_system_la.Kernel.Inv.{Inv}
use ucas_operating_system_la.Kernel.Keeps.{on_links-bind}
use ucas_operating_system_la.Lock.{num_binsem, do_mutex_lock_init}
use ucas_operating_system_la.Init.{init_pcb, init_lock_from, init_lock}

-- Every queue is empty, as in memory that is zero.
abbrev pub AllEmpty : Links → Type 0
AllEmpty s = (q : Ptr) → q ≢ null → IsQueue s q []

AllEmpty-Inv : (k : Kernel) → AllEmpty k.links → Inv k (λ q. [])
AllEmpty-Inv k e = record {
  queues = e;
  member = λ q x h i. absurd (ground arith);
  status = λ q x h i. absurd (ground arith);
  in_table = λ q x h i. absurd (ground arith);
}

queue_init-AllEmpty :
    (s : Links) (q : Ptr) → q ≢ null → AllEmpty s → Runs (λ _. AllEmpty) (queue_init q s)
queue_init-AllEmpty s q ne e = Run.mono (queue_init-nil s q ne) λ _ s' (is, out). λ r h.
    elim (Bool-cases (r == q)) [
      | inl same ↦ rw ((==_iff r q).0 same) is
      | inr other ↦
          IsQueue-other r [] out (λ z. ground arith) (λ a i. absurd (ground arith)) (e r h)
    ]

init_lock_from-AllEmpty :
    (n : ℕ) (lock : Ptr) (k : Kernel)
    → lock ≢ null
    → AllEmpty k.links
    → Runs (λ _ k'. AllEmpty k'.links) (init_lock_from n lock k)
unfolding init_lock_from do_mutex_lock_init
init_lock_from-AllEmpty zero lock k ne e = runs e
init_lock_from-AllEmpty (suc n) lock k ne e = rw (==_ne lock null ne) (
    on_links-bind _ _ (queue_init-AllEmpty k.links (lock_queue lock) (omega arith) e)
      λ _ s e'. init_lock_from-AllEmpty n (lock + 24) _ (omega arith) e')

-- With the static memory zero, `init_lock` and `init_pcb` leave every queue empty and the first entry of the
-- table current.
pub init_pcb-Inv :
    (binsem_list : Ptr) (k : Kernel)
    → binsem_list ≢ null
    → AllEmpty k.links
    → Runs
        (λ _ k'.
          Inv k' (λ q. []) × (k'.current_running ≢ null) × (k'.current_running ≤ num_max_task))
        ((init_lock binsem_list >> init_pcb) k)
unfolding init_lock init_pcb
init_pcb-Inv binsem_list k ne e =
    Run.bind (init_lock_from-AllEmpty num_binsem binsem_list k ne e) λ _ k1 e1.
      on_links-bind k1 _ (queue_init-AllEmpty k1.links 1 (omega arith) e1)
        λ _ s e2. runs (AllEmpty-Inv _ e2, omega arith, omega arith)
