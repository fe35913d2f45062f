-- ===== src/Queue/Seg.antt =====
-- The list of items that a queue of kernel/sched/queue.c stands for: the representation predicate of
-- the links, and what a change of links does to it.
use ucas_operating_system_la.Base.{
  ◌≡◌, ◌≢◌, refl, true, false, List, [], ◌∷◌, ◌++◌, arith, has, has-append,
}
use ucas_operating_system_la.Queue.{Ptr, null, Links}

-- From `p`, whose predecessor is `b`, the links lead through the distinct items `xs` to `e`; the last
-- item is `t`.
abbrev pub Seg : Links → Ptr → Ptr → List Ptr → Ptr → Ptr → Type 0
Seg s b p [] e t = (p ≡ e) × (t ≡ b)
Seg s b p (x ∷ xs) e t =
    (p ≡ x) × (x ≢ null) × (s.prev x ≡ b) × (has x xs ≡ false) × Seg s x (s.next x) xs e t

-- The two stores give the items of `xs` the same links.
abbrev pub Agree : List Ptr → Links → Links → Type 0
Agree xs s s' = (a : Ptr) → has a xs ≡ true → (s'.prev a ≡ s.prev a) × (s'.next a ≡ s.next a)

pub Agree-tail : (x : Ptr) (xs : List Ptr) (s s' : Links) → Agree (x ∷ xs) s s' → Agree xs s s'
Agree-tail x xs s s' same a i = same a (ground arith)

-- A segment survives a change that spares its items.
pub frame :
    (s s' : Links) (b p : Ptr) (xs : List Ptr) (e t : Ptr)
    → Seg s b p xs e t
    → Agree xs s s'
    → Seg s' b p xs e t
frame s s' b p [] e t g same = g
frame s s' b p (x ∷ xs) e t g same =
    let rest = frame s s' x (s.next x) xs e t g.4 (Agree-tail x xs s s' same) in
    ground (arith, same x)

-- A segment falls into two at any place.
pub split :
    (s : Links) (b p : Ptr) (xs ys : List Ptr) (e t : Ptr)
    → Seg s b p (xs ++ ys) e t
    → (m : Ptr) × (l : Ptr) × Seg s b p xs m l × Seg s l m ys e t
split s b p [] ys e t g = (p, b, (refl, refl), g)
split s b p (x ∷ xs) ys e t g =
    let (m, l, front, back) = split s x (s.next x) xs ys e t g.4 in
    (m, l, (g.0, g.1, g.2, ground (arith, has-append x xs ys), front), back)

-- No item of a segment is NULL.
pub ne_null :
    (s : Links) (b p : Ptr) (xs : List Ptr) (e t a : Ptr)
    → Seg s b p xs e t
    → has a xs ≡ true
    → a ≢ null
ne_null s b p [] e t a g i = ground arith
ne_null s b p (x ∷ xs) e t a g i = ground (arith, ne_null s x (s.next x) xs e t a g.4)

-- The last item of a segment that is not empty is one of its items.
pub last-mem :
    (s : Links) (b p x : Ptr) (xs : List Ptr) (e t : Ptr)
    → Seg s b p (x ∷ xs) e t
    → has t (x ∷ xs) ≡ true
last-mem s b p x [] e t g = ground arith
last-mem s b p x (y ∷ xs) e t g = ground (arith, last-mem s x (s.next x) y xs e t g.4)

-- A new exit: only the last item's `next` has changed.
pub retarget :
    (s s' : Links) (b p x : Ptr) (xs : List Ptr) (e e' t : Ptr)
    → Seg s b p (x ∷ xs) e t
    → s'.next t ≡ e'
    → ((a : Ptr) → has a (x ∷ xs) ≡ true → s'.prev a ≡ s.prev a)
    → ((a : Ptr) → has a (x ∷ xs) ≡ true → a ≢ t → s'.next a ≡ s.next a)
    → Seg s' b p (x ∷ xs) e' t
retarget s s' b p x [] e e' t g new same kept = ground (arith, same x)
retarget s s' b p x (y ∷ xs) e e' t g new same kept =
    let rest =
      retarget s s' x (s.next x) y xs e e' t g.4 new (λ a i. same a (ground arith))
        (λ a i. kept a (ground arith)) in
    ground (arith, same x, kept x, last-mem s x (s.next x) y xs e t g.4)

-- A new predecessor: only the first item's `prev` has changed.
pub reback :
    (s s' : Links) (b b' p x : Ptr) (xs : List Ptr) (e t : Ptr)
    → Seg s b p (x ∷ xs) e t
    → s'.prev x ≡ b'
    → ((a : Ptr) → has a xs ≡ true → s'.prev a ≡ s.prev a)
    → ((a : Ptr) → has a (x ∷ xs) ≡ true → s'.next a ≡ s.next a)
    → Seg s' b' p (x ∷ xs) e t
reback s s' b b' p x xs e t g new kept same =
    let rest = frame s s' x (s.next x) xs e t g.4 (λ a i. (kept a i, same a (ground arith))) in
    ground (arith, same x)

-- Two segments that share no item and meet make one.
pub append :
    (s : Links) (b p : Ptr) (xs : List Ptr) (m l : Ptr) (ys : List Ptr) (e t : Ptr)
    → Seg s b p xs m l
    → Seg s l m ys e t
    → ((a : Ptr) → has a xs ≡ true → has a ys ≡ false)
    → Seg s b p (xs ++ ys) e t
append s b p [] m l ys e t f g apart = ground arith
append s b p (x ∷ xs) m l ys e t f g apart =
    let rest = append s x (s.next x) xs m l ys e t f.4 g (λ a i. apart a (ground arith)) in
    ground (arith, has-append x xs ys, apart x)

-- The two parts of a segment share no item.
pub apart :
    (s : Links) (b p : Ptr) (xs ys : List Ptr) (e t a : Ptr)
    → Seg s b p (xs ++ ys) e t
    → has a xs ≡ true
    → has a ys ≡ false
apart s b p [] ys e t a g i = ground arith
apart s b p (x ∷ xs) ys e t a g i =
    ground (arith, apart s x (s.next x) xs ys e t a g.4, has-append x xs ys)

-- No item stands twice in a segment.
pub not-in :
    (s : Links) (b p : Ptr) (ys : List Ptr) (x : Ptr) (zs : List Ptr) (e t : Ptr)
    → Seg s b p (ys ++ x ∷ zs) e t
    → has x (ys ++ zs) ≡ false
not-in s b p [] x zs e t g = g.3
not-in s b p (y ∷ ys) x zs e t g =
    ground (arith, not-in s y (s.next y) ys x zs e t g.4, has-append y ys (x ∷ zs))
