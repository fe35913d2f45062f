-- ===== src/Queue/Dequeue.antt =====
-- `queue_dequeue` of kernel/sched/queue.c against lists.
use ucas_operating_system_la.Base.{◌≡◌, refl, List, [], ◌∷◌, arith, none, some, put}
use ucas_operating_system_la.Base.Run.{Runs, runs}
use ucas_operating_system_la.Queue.{Ptr, null, Links, queue_dequeue}
use ucas_operating_system_la.Queue.Seg
use ucas_operating_system_la.Queue.Seg.{Seg}
use ucas_operating_system_la.Queue.Spec.{IsQueue, Outside}

abbrev dequeued_last : Ptr → Ptr → Links → Links
dequeued_last q x s = record {
  prev = put s.prev x null;
  next = put s.next x null;
  head = put s.head q null;
  tail = put s.tail q null;
}

abbrev dequeued : Ptr → Ptr → Ptr → Links → Links
dequeued q x y s = record {
  prev = put (put s.prev y null) x null;
  next = put s.next x null;
  head = put s.head q y;
  tail = s.tail;
}

dequeue_last-run :
    (s : Links) (q x : Ptr)
    → IsQueue s q (x ∷ [])
    → queue_dequeue q s ≡ some (x, dequeued_last q x s)
unfolding queue_dequeue
dequeue_last-run s q x is = ground arith

dequeue-run :
    (s : Links) (q x y : Ptr) (xs : List Ptr)
    → IsQueue s q (x ∷ y ∷ xs)
    → queue_dequeue q s ≡ some (x, dequeued q x y s)
unfolding queue_dequeue
dequeue-run s q x y xs is = ground arith

dequeued-IsQueue :
    (s : Links) (q x y : Ptr) (xs : List Ptr)
    → IsQueue s q (x ∷ y ∷ xs)
    → IsQueue (dequeued q x y s) q (y ∷ xs)
dequeued-IsQueue s q x y xs is =
    let rest =
      Seg.reback s (dequeued q x y s) x null (s.next x) y xs null (s.tail q) is.links.4
        (ground arith) (λ a i. ground arith) (λ a i. ground arith) in
    record { valid = is.valid; links = ground arith }

-- What `queue_dequeue` does: the first item comes out and is linked to nothing.
abbrev pub Dequeued : Ptr → Ptr → List Ptr → Links → Ptr → Links → Type 0
Dequeued q x xs s a s' =
    (a ≡ x) × IsQueue s' q xs × Outside q (x ∷ xs) s s' × (s'.prev x ≡ null) × (s'.next x ≡ null)

-- queue_dequeue on a queue that is not empty returns its first item, unlinked, and leaves the rest
-- in order; only this queue and its items change.
pub queue_dequeue-cons :
    (s : Links) (q x : Ptr) (xs : List Ptr)
    → IsQueue s q (x ∷ xs)
    → Runs (Dequeued q x xs s) (queue_dequeue q s)
queue_dequeue-cons s q x [] is = rw (dequeue_last-run s q x is) (
    runs (
      refl,
      record { valid = is.valid; links = ground arith },
      record { items = λ a i. ground arith; queues = λ r h. ground arith },
      ground arith,
      ground arith,
    ))
queue_dequeue-cons s q x (y ∷ xs) is = rw (dequeue-run s q x y xs is) (
    runs (
      refl,
      dequeued-IsQueue s q x y xs is,
      record { items = λ a i. ground arith; queues = λ r h. ground arith },
      ground arith,
      ground arith,
    ))

-- On an empty queue the C code reads through NULL.
pub queue_dequeue-nil : (s : Links) (q : Ptr) → IsQueue s q [] → queue_dequeue q s ≡ none
unfolding queue_dequeue
queue_dequeue-nil s q is = ground arith
