-- ===== src/Wakeup/Unblock.antt =====
-- `do_unblock_one` and `do_unblock_all` of kernel/sched/sched.c against the queues' contents.
use ucas_operating_system_la.Base.{
  ℕ, zero, suc, ◌<◌, ◌≡◌, ◌≢◌, refl, List, [], ◌∷◌, ◌++◌, arith, length, put, ==_ne, ==_refl,
}
use mathlib.Core.List.{append-nil, append_assoc}
use ucas_operating_system_la.Base.Run
use ucas_operating_system_la.Base.Run.{Runs, runs}
use ucas_operating_system_la.Queue.{Ptr, null, Links}
use ucas_operating_system_la.Queue.Spec.{IsQueue}
use ucas_operating_system_la.Queue.Push.{queue_is_empty_lem, queue_push-append}
use ucas_operating_system_la.Queue.Dequeue.{queue_dequeue-cons}
use ucas_operating_system_la.Kernel.{Kernel, ready_queue, num_max_task}
use ucas_operating_system_la.Kernel.Inv.{Inv, Inv-remove, Inv-join, Inv-cong, Inv-length}
use ucas_operating_system_la.Kernel.Keeps.{
  Keeps, Keeps-refl, Keeps-trans, on_links-bind, on_links-run,
}
use ucas_operating_system_la.Wakeup.Loop.{Spares}
use ucas_operating_system_la.Wakeup.{do_unblock_one, unblock_loop, do_unblock_all}

-- The process that comes out of the queue is a real one.
IsQueue-first-ne : (s : Links) (q x : Ptr) (xs : List Ptr) → IsQueue s q (x ∷ xs) → x ≢ null
IsQueue-first-ne s q x xs is = is.links.1

module _ (k : Kernel) (qs : Ptr → List Ptr) (q x : Ptr) (xs : List Ptr) where
  -- `do_unblock_one` moves the first process of a queue to the end of the ready queue, and changes
  -- nothing but the links and that process's status and queue.
  pub do_unblock_one-moves :
      Inv k qs
      → q ≢ null
      → q ≢ ready_queue
      → qs q ≡ x ∷ xs
      → Runs
          (λ _ k'.
            Inv k' (put (put qs q xs) ready_queue (qs ready_queue ++ x ∷ []))
            × Keeps k k'
            × Spares (x ∷ []) k k')
          (do_unblock_one q k)
  unfolding do_unblock_one
  do_unblock_one-moves v hq nr e =
      let is : IsQueue k.links q (x ∷ xs) = let w = v.queues q hq in rw e at w in
      let ne = IsQueue-first-ne k.links q x xs is in
      on_links-bind k _ (queue_dequeue-cons k.links q x xs is) λ a s (got, is', out, p, n).
        let (v1, free) =
          Inv-remove k (record k { links = s }) qs x v q hq [] xs e is' out (λ a ne. refl) in
        let ready : put qs q xs ready_queue ≡ qs ready_queue = ground arith in
        let is1 = rw ready at (v1.queues ready_queue (omega arith)) in
        let fresh = rw ready at (free ready_queue (omega arith)) in
        let le = v.in_table q x hq (rw e (ground (arith, ==_refl x))) in
        rw (got, ==_ne x null ne)
          (rw (==_ne x null ne) (
            on_links-run _ (queue_push-append s ready_queue x (qs ready_queue) is1 ne fresh)
              λ _ s2 pushed. (
                Inv-join (record k { links = s }) _ (put qs q xs) x ready_queue (qs ready_queue)
                    ready v1 (omega arith) free le pushed (λ a d. ground arith) (ground arith)
                    (ground arith),
                record { rest = refl; fields = λ a. ground arith },
                λ a d. ground arith,
              )))

unblock_loop-moves :
    (n : ℕ) (k : Kernel) (qs : Ptr → List Ptr) (q : Ptr) (xs : List Ptr)
    → Inv k qs
    → q ≢ null
    → q ≢ ready_queue
    → qs q ≡ xs
    → length xs < n
    → Runs
        (λ _ k'.
          Inv k' (put (put qs q []) ready_queue (qs ready_queue ++ xs))
          × Keeps k k'
          × Spares xs k k')
        (unblock_loop n q k)
unfolding unblock_loop
unblock_loop-moves zero k qs q xs v hq nr e h = absurd (omega arith)
unblock_loop-moves (suc n) k qs q [] v hq nr e h =
    let is : IsQueue k.links q [] = let w = v.queues q hq in rw e at w in
    rw (queue_is_empty_lem k.links q [] is) (
      runs (
        Inv-cong qs (put (put qs q []) ready_queue (qs ready_queue ++ []))
            (λ r. ground (arith, append-nil (qs ready_queue))) v,
        Keeps-refl k,
        λ a d. refl,
      ))
unblock_loop-moves (suc n) k qs q (x ∷ xs) v hq nr e h =
    let is : IsQueue k.links q (x ∷ xs) = let w = v.queues q hq in rw e at w in
    let qs1 : Ptr → List Ptr = put (put qs q xs) ready_queue (qs ready_queue ++ x ∷ []) in
    rw (queue_is_empty_lem k.links q (x ∷ xs) is) (
      Run.bind (do_unblock_one-moves k qs q x xs v hq nr e) λ _ k1 (v1, kept, spares).
        Run.mono (unblock_loop-moves n k1 qs1 q xs v1 hq nr (ground arith) (omega arith))
          λ _ k2 (v2, kept2, spares2). (
            Inv-cong (put (put qs1 q []) ready_queue (qs1 ready_queue ++ xs))
                (put (put qs q []) ready_queue (qs ready_queue ++ x ∷ xs))
                (λ r. ground (arith, append_assoc (qs ready_queue) (x ∷ []) xs)) v2,
            Keeps-trans kept kept2,
            λ a d. ground (arith, spares a, spares2 a),
          ))

-- When the queues are consistent, do_unblock_all of a queue other than the ready queue ends, empties
-- it and moves its processes to the end of the ready queue in order; nothing else changes but links
-- and those processes' status and queue, and every other process is as it was.
pub do_unblock_all-moves :
    (k : Kernel) (qs : Ptr → List Ptr) (q : Ptr)
    → Inv k qs
    → q ≢ null
    → q ≢ ready_queue
    → Runs
        (λ _ k'.
          Inv k' (put (put qs q []) ready_queue (qs ready_queue ++ qs q))
          × Keeps k k'
          × Spares (qs q) k k')
        (do_unblock_all q k)
unfolding do_unblock_all
do_unblock_all-moves k qs q v hq nr =
    unblock_loop-moves (suc num_max_task) k qs q (qs q) v hq nr refl
      (omega (arith, Inv-length qs q v hq))
