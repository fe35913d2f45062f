-- ===== src/Sched/Wake.antt =====
-- `check_sleeping` of kernel/sched/sched.c, and the walk that it shares with `free_proc`.
use ucas_operating_system_la.Base.{
  true, ◌⊎◌, inl, inr, Bool-cases, ◌==◌, suc, ◌%◌, ◌^◌, ◌≡◌, ◌≢◌, refl, Bool, false, bnot, List, [],
  ◌∷◌, ◌++◌, arith, put, ltb, has, ==_ne,
}
use mathlib.Core.List.{append-nil}
use ucas_operating_system_la.Base.Run.{Runs, runs}
use ucas_operating_system_la.Queue.{Ptr, null}
use ucas_operating_system_la.Queue.Spec.{head-first}
use ucas_operating_system_la.Queue.Push.{queue_is_empty_lem}
use ucas_operating_system_la.Kernel.{Kernel, Pcb, ready_queue, sleep_queue, num_max_task}
use ucas_operating_system_la.Kernel.Inv.{Inv, Inv-cong, Inv-length}
use ucas_operating_system_la.Kernel.Grown.{Grown, Grown-move}
use ucas_operating_system_la.Kernel.Keeps.{Keeps, Keeps-refl}
use ucas_operating_system_la.Time.{get_timer}
use ucas_operating_system_la.Wakeup.Loop.{select, IgnoresQueue, Spares, wake_loop-moves}
use ucas_operating_system_la.Sched.{wake_queue, check_sleeping}

pub not-mem-select :
    (t : Ptr → Bool) (xs : List Ptr) (x : Ptr) → has x xs ≡ false → has x (select t xs) ≡ false
not-mem-select t [] x h = refl
not-mem-select t (y ∷ xs) x h = ground (arith, not-mem-select t xs x)

-- The queues after the processes of `q` that pass a test are made ready.
abbrev pub woken : (Ptr → Bool) → Ptr → (Ptr → List Ptr) → Ptr → List Ptr
woken t q qs =
    put (put qs q (select (λ a. bnot (t a)) (qs q))) ready_queue (qs ready_queue ++ select t (qs q))

pub Grown-woken :
    (t : Ptr → Bool) (q : Ptr) (qs : Ptr → List Ptr)
    → q ≢ null
    → q ≢ ready_queue
    → Grown qs (woken t q qs)
Grown-woken t q qs hq nr =
    Grown-move qs q (select (λ a. bnot (t a)) (qs q)) (select t (qs q)) hq nr
      λ x h. (not-mem-select (λ a. bnot (t a)) (qs q) x h, not-mem-select t (qs q) x h)

module _ (test : Pcb → Bool) (ignores : IgnoresQueue test) (k : Kernel) (qs : Ptr → List Ptr)
    (q : Ptr) (v : Inv k qs) (hq : q ≢ null) (nr : q ≢ ready_queue) where
  wake_list :
      (xs : List Ptr)
      → qs q ≡ xs
      → Runs
          (λ _ k'.
            Inv k' (woken (λ a. test (k.pcb a)) q qs)
            × Keeps k k'
            × Spares (select (λ a. test (k.pcb a)) (qs q)) k k')
          (wake_queue q test k)
  unfolding wake_queue
  wake_list [] e =
      let is = rw e at (v.queues q hq) in
      rw (queue_is_empty_lem k.links q [] is) (
        runs (
          Inv-cong qs (woken (λ a. test (k.pcb a)) q qs)
              (λ r. rw e (ground (arith, append-nil (qs ready_queue)))) v,
          Keeps-refl k,
          λ a i. refl,
        ))
  wake_list (x ∷ xs) e =
      let is = rw e at (v.queues q hq) in
      let head = head-first k.links q (qs q) (v.queues q hq) in
      rw (queue_is_empty_lem k.links q (x ∷ xs) is) (
        rw (==_ne q null hq) (
          rw head (
            wake_loop-moves q hq nr test ignores (λ a. test (k.pcb a)) (suc num_max_task) k qs []
              (qs q) v refl (omega (arith, Inv-length qs q v hq)) (λ a. refl))))

  -- The walk over a queue that is not the ready queue ends. The processes that pass the test go to the
  -- end of the ready queue in their order, and the others stay in theirs.
  pub wake_queue-moves :
      Runs
        (λ _ k'.
          Inv k' (woken (λ a. test (k.pcb a)) q qs)
          × Keeps k k'
          × Spares (select (λ a. test (k.pcb a)) (qs q)) k k')
        (wake_queue q test k)
  wake_queue-moves = wake_list (qs q) refl

-- A process that sleeps is due when the clock, cut to 32 bits, is past its time.
abbrev pub due : Kernel → Ptr → Bool
due k a = ltb (k.pcb a).sleep_until (get_timer k % 2 ^ 32)

-- When the queues are consistent, check_sleeping ends, makes exactly the sleeping processes that are
-- due ready, in their order, and keeps the others asleep in theirs; nothing else changes but links
-- and the status and the queue of those that are woken.
pub check_sleeping-wakes :
    (k : Kernel) (qs : Ptr → List Ptr)
    → Inv k qs
    → Runs
        (λ _ k'.
          Inv k' (woken (due k) sleep_queue qs)
          × Keeps k k'
          × Spares (select (due k) (qs sleep_queue)) k k')
        (check_sleeping k)
unfolding check_sleeping
check_sleeping-wakes k qs v =
    wake_queue-moves (λ x. ltb x.sleep_until (get_timer k % 2 ^ 32)) (λ p q s. refl) k qs
      sleep_queue v (omega arith) (omega arith)

-- A process of the list passes the test or it does not, and is selected by it or by its opposite.
pub has-select :
    (t : Ptr → Bool) (xs : List Ptr) (x : Ptr)
    → has x xs ≡ true
    → (has x (select t xs) ≡ true) ⊎ (has x (select (λ a. bnot (t a)) xs) ≡ true)
has-select t [] x h = ground arith
has-select t (y ∷ xs) x h = elim (Bool-cases (x == y)) [
  | inl e ↦ elim (Bool-cases (t y)) [ inl p ↦ inl (ground arith) | inr p ↦ inr (ground arith) ]
  | inr d ↦ ground (arith, has-select t xs x)
]
