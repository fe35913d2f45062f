-- ===== src/Queue/Spec.antt =====
-- When a `queue_t` of kernel/sched/queue.c stands for a list of items, and what an operation on one
-- queue leaves alone.
use ucas_operating_system_la.Base.{
  ◌≤◌, length, length-le, Distinct, ◌≡◌, ◌≢◌, true, false, List, [], ◌∷◌, ◌++◌, arith, has,
}
use ucas_operating_system_la.Queue.{Ptr, null, Links}
use ucas_operating_system_la.Queue.Seg
use ucas_operating_system_la.Queue.Seg.{Seg}

pub record IsQueue (s : Links) (q : Ptr) (xs : List Ptr) : Type 0 where
  pub valid : q ≢ null
  pub links : Seg s null (s.head q) xs null (s.tail q)

-- Only the queue `q` and the items of `xs` may have changed.
pub record Outside (q : Ptr) (xs : List Ptr) (s s' : Links) : Type 0 where
  pub items : (a : Ptr) → has a xs ≡ false → (s'.prev a ≡ s.prev a) × (s'.next a ≡ s.next a)
  pub queues : (r : Ptr) → r ≢ q → (s'.head r ≡ s.head r) × (s'.tail r ≡ s.tail r)

-- The first item of a list of items, NULL if there is none.
abbrev pub first : List Ptr → Ptr
first [] = null
first (x ∷ xs) = x

-- Another queue, which shares no item, still stands for the same list.
pub IsQueue-other :
    {q : Ptr} {xs : List Ptr} {s s' : Links} (r : Ptr) (ys : List Ptr)
    → Outside q xs s s'
    → r ≢ q
    → ((a : Ptr) → has a ys ≡ true → has a xs ≡ false)
    → IsQueue s r ys
    → IsQueue s' r ys
IsQueue-other {s} {s'} r ys out ne apart is =
    let same =
      Seg.frame s s' null (s.head r) ys null (s.tail r) is.links (λ a i. out.items a (apart a i)) in
    record { valid = is.valid; links = ground (arith, same, out.queues r ne) }

-- No item stands twice in a queue.
pub IsQueue-not-in :
    {s : Links} (q : Ptr) (ys : List Ptr) (x : Ptr) (zs : List Ptr)
    → IsQueue s q (ys ++ x ∷ zs)
    → has x (ys ++ zs) ≡ false
IsQueue-not-in {s} q ys x zs is = Seg.not-in s null (s.head q) ys x zs null (s.tail q) is.links

Seg-Distinct : (s : Links) (b p : Ptr) (xs : List Ptr) (e t : Ptr) → Seg s b p xs e t → Distinct xs
Seg-Distinct s b p [] e t g = tt
Seg-Distinct s b p (x ∷ xs) e t g = (g.3, Seg-Distinct s x (s.next x) xs e t g.4)

-- A queue of items from 1 to `n` has at most `n` of them.
pub length-IsQueue :
    {s : Links} (q n : Ptr) (xs : List Ptr)
    → IsQueue s q xs
    → ((a : Ptr) → has a xs ≡ true → a ≤ n)
    → length xs ≤ n
length-IsQueue {s} q n xs is le =
    length-le n xs (Seg-Distinct s null (s.head q) xs null (s.tail q) is.links) λ a i.
      let ne = Seg.ne_null s null (s.head q) xs null (s.tail q) a is.links i in
      (omega arith, le a i)

head_of_Seg : (s : Links) (b p : Ptr) (xs : List Ptr) (t : Ptr) → Seg s b p xs null t → p ≡ first xs
head_of_Seg s b p [] t g = g.0
head_of_Seg s b p (x ∷ xs) t g = g.0

-- The `next` pointer of an item is the item behind it.
pub next-first :
    {s : Links} (q : Ptr) (ys : List Ptr) (x : Ptr) (zs : List Ptr)
    → IsQueue s q (ys ++ x ∷ zs)
    → (s.next x ≡ first zs) × (x ≢ null)
next-first {s} q ys x zs is =
    let (m, l, front, back) = Seg.split s null (s.head q) ys (x ∷ zs) null (s.tail q) is.links in
    (head_of_Seg s x (s.next x) zs (s.tail q) back.4, back.1)

-- The head pointer is the first item.
pub head-first : (s : Links) (q : Ptr) (xs : List Ptr) → IsQueue s q xs → s.head q ≡ first xs
head-first s q xs is = head_of_Seg s null (s.head q) xs (s.tail q) is.links
