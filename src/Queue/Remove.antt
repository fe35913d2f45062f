-- ===== src/Queue/Remove.antt =====
-- `queue_remove` of kernel/sched/queue.c against lists.
use ucas_operating_system_la.Base.{
  ◌≡◌, ◌≢◌, refl, true, false, List, [], ◌∷◌, ◌++◌, arith, has, has-append, some, put,
}
use mathlib.Core.List.{append-nil}
use ucas_operating_system_la.Base.Run.{Runs, runs}
use ucas_operating_system_la.Queue.{Ptr, null, Links, queue_remove}
use ucas_operating_system_la.Queue.Seg
use ucas_operating_system_la.Queue.Seg.{Seg}
use ucas_operating_system_la.Queue.Spec.{IsQueue, Outside, first}

-- What `queue_remove` does: the item comes out, linked to nothing, and the item behind it is returned.
abbrev pub Removed : Ptr → List Ptr → Ptr → List Ptr → Links → Ptr → Links → Type 0
Removed q ys x zs s a s' =
    (a ≡ first zs)
    × IsQueue s' q (ys ++ zs)
    × Outside q (ys ++ x ∷ zs) s s'
    × (s'.prev x ≡ null)
    × (s'.next x ≡ null)

-- The four stores that it leaves: the only item, the first, the last, one in the middle.
abbrev removed_only : Ptr → Ptr → Links → Links
removed_only q x s = record {
  prev = put s.prev x null;
  next = put s.next x null;
  head = put s.head q null;
  tail = put s.tail q null;
}

abbrev removed_first : Ptr → Ptr → Ptr → Links → Links
removed_first q x z s = record {
  prev = put (put s.prev z null) x null;
  next = put s.next x null;
  head = put s.head q z;
  tail = s.tail;
}

abbrev removed_last : Ptr → Ptr → Ptr → Links → Links
removed_last q x l s = record {
  prev = put s.prev x null;
  next = put (put s.next l null) x null;
  head = s.head;
  tail = put s.tail q l;
}

abbrev removed_middle : Ptr → Ptr → Ptr → Ptr → Links → Links
removed_middle q x l z s = record {
  prev = put (put s.prev z l) x null;
  next = put (put s.next l z) x null;
  head = s.head;
  tail = s.tail;
}

module _ (s : Links) (q x : Ptr) where
  only-run : IsQueue s q (x ∷ []) → queue_remove q x s ≡ some (null, removed_only q x s)
  unfolding queue_remove
  only-run is = ground arith

  first-run :
      (z : Ptr) (zs : List Ptr)
      → IsQueue s q (x ∷ z ∷ zs)
      → queue_remove q x s ≡ some (z, removed_first q x z s)
  unfolding queue_remove
  first-run z zs is =
      let last = Seg.last-mem s x (s.next x) z zs null (s.tail q) is.links.4 in ground arith

  remove-only : IsQueue s q (x ∷ []) → Runs (Removed q [] x [] s) (queue_remove q x s)
  remove-only is = rw (only-run is) (
      runs (
        refl,
        record { valid = is.valid; links = ground arith },
        record { items = λ a i. ground arith; queues = λ r h. ground arith },
        ground arith,
        ground arith,
      ))

  remove-first :
      (z : Ptr) (zs : List Ptr)
      → IsQueue s q (x ∷ z ∷ zs)
      → Runs (Removed q [] x (z ∷ zs) s) (queue_remove q x s)
  remove-first z zs is =
      let rest =
        Seg.reback s (removed_first q x z s) x null (s.next x) z zs null (s.tail q) is.links.4
          (ground arith) (λ a i. ground arith) (λ a i. ground arith) in
      rw (first-run z zs is) (
        runs (
          refl,
          record { valid = is.valid; links = ground arith },
          record { items = λ a i. ground arith; queues = λ r h. ground arith },
          ground arith,
          ground arith,
        ))

-- What the list `(y ∷ ys) ++ x ∷ zs` says of the links round `x`; `l` is the item before `x`.
record Cut (s : Links) (q y : Ptr) (ys : List Ptr) (x : Ptr) (zs : List Ptr) (l : Ptr)
    : Type 0 where
  valid : q ≢ null
  front : Seg s null (s.head q) (y ∷ ys) x l
  back : Seg s x (s.next x) zs null (s.tail q)
  before : s.prev x ≡ l
  x_valid : x ≢ null
  x_not_in : has x zs ≡ false
  apart : (a : Ptr) → has a (y ∷ ys) ≡ true → has a (x ∷ zs) ≡ false
  last : has l (y ∷ ys) ≡ true
  l_valid : l ≢ null

cut :
    (s : Links) (q y : Ptr) (ys : List Ptr) (x : Ptr) (zs : List Ptr)
    → IsQueue s q ((y ∷ ys) ++ x ∷ zs)
    → (l : Ptr) × Cut s q y ys x zs l
cut s q y ys x zs is =
    let (m, l, front, back) =
      Seg.split s null (s.head q) (y ∷ ys) (x ∷ zs) null (s.tail q) is.links in
    let front' : Seg s null (s.head q) (y ∷ ys) x l = ground arith in
    let last = Seg.last-mem s null (s.head q) y ys x l front' in
    (
      l,
      record {
        valid = is.valid;
        front = front';
        back = back.4;
        before = back.2;
        x_valid = back.1;
        x_not_in = back.3;
        apart = λ a i. Seg.apart s null (s.head q) (y ∷ ys) (x ∷ zs) null (s.tail q) a is.links i;
        last = last;
        l_valid = Seg.ne_null s null (s.head q) (y ∷ ys) x l l front' last;
      },
    )

module _ (s : Links) (q y : Ptr) (ys : List Ptr) (x l : Ptr) where
  last-run : Cut s q y ys x [] l → queue_remove q x s ≡ some (null, removed_last q x l s)
  unfolding queue_remove
  last-run c = ground (arith, c.apart y, c.apart l)

  removed_last-Seg :
      Cut s q y ys x [] l → Seg (removed_last q x l s) null (s.head q) (y ∷ ys) null l
  removed_last-Seg c =
      Seg.retarget s (removed_last q x l s) null (s.head q) y ys x null l c.front
        (ground (arith, c.apart l)) (λ a i. ground (arith, c.apart a))
        (λ a i d. ground (arith, c.apart a))

  middle-run :
      (z : Ptr) (zs : List Ptr)
      → Cut s q y ys x (z ∷ zs) l
      → queue_remove q x s ≡ some (z, removed_middle q x l z s)
  unfolding queue_remove
  middle-run z zs c =
      let t = Seg.last-mem s x (s.next x) z zs null (s.tail q) c.back in ground (arith, c.apart y)

  removed_middle-Seg :
      (z : Ptr) (zs : List Ptr)
      → Cut s q y ys x (z ∷ zs) l
      → Seg (removed_middle q x l z s) null (s.head q) ((y ∷ ys) ++ z ∷ zs) null (s.tail q)
  removed_middle-Seg z zs c =
      let s' = removed_middle q x l z s in
      let front =
        Seg.retarget s s' null (s.head q) y ys x z l c.front (ground (arith, c.apart l))
          (λ a i. ground (arith, c.apart a)) (λ a i d. ground (arith, c.apart a)) in
      let back =
        Seg.reback s s' x l (s.next x) z zs null (s.tail q) c.back (ground arith)
          (λ a i. ground arith) (λ a i. ground (arith, c.apart l)) in
      Seg.append s' null (s.head q) (y ∷ ys) z l (z ∷ zs) null (s.tail q) front
        (refl, back.1, back.2, back.3, back.4) (λ a i. ground (arith, c.apart a))

  -- Only the queue, its items and the removed item change.
  removed_last-Outside :
      Cut s q y ys x [] l → Outside q ((y ∷ ys) ++ x ∷ []) s (removed_last q x l s)
  removed_last-Outside c = record {
    items = λ a i.
        ground (arith, has-append a (y ∷ ys) (x ∷ []), has-append l (y ∷ ys) (x ∷ []), c.last);
    queues = λ r h. ground arith;
  }

  removed_middle-Outside :
      (z : Ptr) (zs : List Ptr)
      → Cut s q y ys x (z ∷ zs) l
      → Outside q ((y ∷ ys) ++ x ∷ z ∷ zs) s (removed_middle q x l z s)
  removed_middle-Outside z zs c = record {
    items = λ a i.
        ground
          (arith, has-append a (y ∷ ys) (x ∷ z ∷ zs), has-append l (y ∷ ys) (x ∷ z ∷ zs), c.last);
    queues = λ r h. ground arith;
  }

  remove-last : Cut s q y ys x [] l → Runs (Removed q (y ∷ ys) x [] s) (queue_remove q x s)
  remove-last c = rw (last-run c) (
      runs (
        refl,
        record { valid = c.valid; links = ground (arith, removed_last-Seg c, append-nil ys) },
        removed_last-Outside c,
        ground arith,
        ground arith,
      ))

  remove-middle :
      (z : Ptr) (zs : List Ptr)
      → Cut s q y ys x (z ∷ zs) l
      → Runs (Removed q (y ∷ ys) x (z ∷ zs) s) (queue_remove q x s)
  remove-middle z zs c = rw (middle-run z zs c) (
      runs (
        refl,
        record { valid = c.valid; links = removed_middle-Seg z zs c },
        removed_middle-Outside z zs c,
        ground arith,
        ground arith,
      ))

-- queue_remove takes an item of a queue out of it wherever it stands, keeps the order of the others,
-- unlinks it and returns the one behind it, NULL if it was the last; only this queue and its items
-- change.
pub queue_remove-append :
    (s : Links) (q : Ptr) (ys : List Ptr) (x : Ptr) (zs : List Ptr)
    → IsQueue s q (ys ++ x ∷ zs)
    → Runs
        (λ a s'.
          (a ≡ first zs)
          × IsQueue s' q (ys ++ zs)
          × Outside q (ys ++ x ∷ zs) s s'
          × (s'.prev x ≡ null)
          × (s'.next x ≡ null))
        (queue_remove q x s)
queue_remove-append s q [] x [] is = remove-only s q x is
queue_remove-append s q [] x (z ∷ zs) is = remove-first s q x z zs is
queue_remove-append s q (y ∷ ys) x [] is =
    let (l, c) = cut s q y ys x [] is in remove-last s q y ys x l c
queue_remove-append s q (y ∷ ys) x (z ∷ zs) is =
    let (l, c) = cut s q y ys x (z ∷ zs) is in remove-middle s q y ys x l z zs c
