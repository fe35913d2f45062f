-- ===== src/Queue/Push.antt =====
-- `queue_init`, `queue_is_empty` and `queue_push` of kernel/sched/queue.c against lists.
use ucas_operating_system_la.Base.{
  ◌≡◌, ◌≢◌, refl, true, false, Bool, List, [], ◌∷◌, ◌++◌, arith, has, some, put,
}
use ucas_operating_system_la.Base.Run.{Runs, runs}
use ucas_operating_system_la.Queue.{Ptr, null, Links, queue_init, queue_is_empty, queue_push}
use ucas_operating_system_la.Queue.Seg
use ucas_operating_system_la.Queue.Seg.{Seg}
use ucas_operating_system_la.Queue.Spec.{IsQueue, Outside}

abbrev is_nil : List Ptr → Bool
is_nil [] = true
is_nil (x ∷ xs) = false

queue_init-run :
    (s : Links) (q : Ptr)
    → q ≢ null
    → queue_init q s ≡ some (tt, record s { head = put s.head q null; tail = put s.tail q null })
unfolding queue_init
queue_init-run s q h = ground arith

-- `queue_init` makes the queue stand for the empty list and touches nothing else.
pub queue_init-nil :
    (s : Links) (q : Ptr)
    → q ≢ null
    → Runs (λ _ s'. IsQueue s' q [] × Outside q [] s s') (queue_init q s)
queue_init-nil s q h = rw (queue_init-run s q h) (
    runs (
      record { valid = h; links = ground arith },
      record { items = λ a i. (refl, refl); queues = λ r ne. ground arith },
    ))

pub queue_is_empty_lem :
    (s : Links) (q : Ptr) (xs : List Ptr)
    → IsQueue s q xs
    → queue_is_empty q s ≡ some (is_nil xs, s)
unfolding queue_is_empty
queue_is_empty_lem s q [] is = ground arith
queue_is_empty_lem s q (x ∷ xs) is = ground arith

abbrev Pushed : Ptr → Ptr → List Ptr → Links → Links → Type 0
Pushed q item xs s s' = IsQueue s' q (xs ++ item ∷ []) × Outside q (item ∷ xs) s s'

-- The store that a push into an empty queue leaves.
abbrev pushed_first : Ptr → Ptr → Links → Links
pushed_first q item s = record {
  prev = put s.prev item null;
  next = put s.next item null;
  head = put s.head q item;
  tail = put s.tail q item;
}

push-nil-run :
    (s : Links) (q item : Ptr)
    → IsQueue s q []
    → item ≢ null
    → queue_push q item s ≡ some (tt, pushed_first q item s)
unfolding queue_push
push-nil-run s q item is ne = ground arith

push-nil :
    (s : Links) (q item : Ptr)
    → IsQueue s q []
    → item ≢ null
    → Runs (λ _. Pushed q item [] s) (queue_push q item s)
push-nil s q item is ne = rw (push-nil-run s q item is ne) (
    runs (
      record { valid = is.valid; links = ground arith },
      record { items = λ a i. ground arith; queues = λ r h. ground arith },
    ))

-- The store that a push behind the last item leaves.
abbrev pushed : Ptr → Ptr → Links → Links
pushed q item s = record {
  prev = put s.prev item (s.tail q);
  next = put (put s.next (s.tail q) item) item null;
  head = s.head;
  tail = put s.tail q item;
}

module _ (s : Links) (q item x : Ptr) (xs : List Ptr) where
  pushed-IsQueue :
      IsQueue s q (x ∷ xs)
      → item ≢ null
      → has item (x ∷ xs) ≡ false
      → IsQueue (pushed q item s) q ((x ∷ xs) ++ item ∷ [])
  pushed-IsQueue is ne fresh =
      let last = Seg.last-mem s null (s.head q) x xs null (s.tail q) is.links in
      let front : Seg (pushed q item s) null (s.head q) (x ∷ xs) item (s.tail q) =
        Seg.retarget s (pushed q item s) null (s.head q) x xs null item (s.tail q) is.links
          (ground arith) (λ a i. ground arith) (λ a i d. ground arith) in
      let back : Seg (pushed q item s) (s.tail q) item (item ∷ []) null item = ground arith in
      let all =
        Seg.append (pushed q item s) null (s.head q) (x ∷ xs) item (s.tail q) (item ∷ []) null item
          front back (λ a i. ground arith) in
      record { valid = is.valid; links = ground arith }

  pushed-Outside : IsQueue s q (x ∷ xs) → Outside q (item ∷ x ∷ xs) s (pushed q item s)
  pushed-Outside is =
      let last = Seg.last-mem s null (s.head q) x xs null (s.tail q) is.links in
      record { items = λ a i. ground arith; queues = λ r h. ground arith }

  push-cons-run :
      IsQueue s q (x ∷ xs) → item ≢ null → queue_push q item s ≡ some (tt, pushed q item s)
  unfolding queue_push
  push-cons-run is ne =
      let last = Seg.last-mem s null (s.head q) x xs null (s.tail q) is.links in
      let tail_ok : s.tail q ≢ null =
        Seg.ne_null s null (s.head q) (x ∷ xs) null (s.tail q) (s.tail q) is.links last in
      ground arith

  push-cons :
      IsQueue s q (x ∷ xs)
      → item ≢ null
      → has item (x ∷ xs) ≡ false
      → Runs (λ _. Pushed q item (x ∷ xs) s) (queue_push q item s)
  push-cons is ne fresh =
      rw (push-cons-run is ne) (runs (pushed-IsQueue is ne fresh, pushed-Outside is))

-- queue_push of an item that is not NULL and not in the queue appends it at the end of the queue,
-- and changes only this queue, its items and the new one.
pub queue_push-append :
    (s : Links) (q item : Ptr) (xs : List Ptr)
    → IsQueue s q xs
    → item ≢ null
    → has item xs ≡ false
    → Runs
        (λ _ s'. IsQueue s' q (xs ++ item ∷ []) × Outside q (item ∷ xs) s s')
        (queue_push q item s)
queue_push-append s q item [] is ne fresh = push-nil s q item is ne
queue_push-append s q item (x ∷ xs) is ne fresh = push-cons s q item x xs is ne fresh
