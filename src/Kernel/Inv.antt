-- ===== src/Kernel/Inv.antt =====
-- The invariant that ties the queues to the process control blocks, and how one process leaves or
-- joins a queue.
use ucas_operating_system_la.Base.{
  ◌≤◌, ◌≡◌, ◌≢◌, refl, ap, ◌∙◌, fun_ext, length, true, false, List, [], ◌∷◌, ◌++◌, arith, ◌==◌,
  ◌||◌, has, has-append, if◌then◌else◌, put, ==_iff, Bool-cases, inl, inr,
}
use mathlib.Core.Path.{subst}
use ucas_operating_system_la.Queue.{Ptr, null}
use ucas_operating_system_la.Queue.Spec.{
  IsQueue, Outside, IsQueue-other, IsQueue-not-in, length-IsQueue,
}
use ucas_operating_system_la.Kernel.{
  Pcb, Kernel, Status, task_ready, task_sleeping, task_blocked, ready_queue, sleep_queue,
  num_max_task,
}

-- The status of the processes in a queue.
abbrev pub status_in : Ptr → Status
status_in q =
    if q == ready_queue
    then task_ready
    else if q == sleep_queue
    then task_sleeping
    else task_blocked

-- `qs` gives the processes in each queue, in order; an address that holds no queue stands for the
-- empty one, as zeroed memory does. A process is in the queue that its `in_queue` names and in no
-- other, with the status of that queue.
pub record Inv (k : Kernel) (qs : Ptr → List Ptr) : Type 0 where
  pub queues : (q : Ptr) → q ≢ null → IsQueue k.links q (qs q)
  pub member : (q x : Ptr) → q ≢ null → has x (qs q) ≡ true → (k.pcb x).in_queue ≡ q
  pub status : (q x : Ptr) → q ≢ null → has x (qs q) ≡ true → (k.pcb x).status ≡ status_in q
  pub in_table : (q x : Ptr) → q ≢ null → has x (qs q) ≡ true → x ≤ num_max_task

-- The process is in no queue.
abbrev pub Free : (Ptr → List Ptr) → Ptr → Type 0
Free qs x = (q : Ptr) → q ≢ null → has x (qs q) ≡ false

-- No process is in two queues.
pub Inv-disjoint :
    {k : Kernel} {qs : Ptr → List Ptr} (q r x : Ptr)
    → Inv k qs
    → q ≢ null
    → r ≢ null
    → q ≢ r
    → has x (qs q) ≡ true
    → has x (qs r) ≡ false
Inv-disjoint {k} {qs} q r x v hq hr ne i = elim (Bool-cases (has x (qs r))) [
  | inl j ↦ absurd (omega (arith, v.member q x hq i, v.member r x hr j))
  | inr j ↦ j
]

ap_status : {p p' : Pcb} {s : Status} → p' ≡ p → p.status ≡ s → p'.status ≡ s
ap_status e h = ap (λ (x : Pcb). x.status) e ∙ h

module _ (k k' : Kernel) (qs : Ptr → List Ptr) (x : Ptr) (v : Inv k qs) where
  -- A free process may change at will.
  pub Inv-update :
      Free qs x → k'.links ≡ k.links → ((a : Ptr) → a ≢ x → k'.pcb a ≡ k.pcb a) → Inv k' qs
  Inv-update free links same = record {
    queues = λ q h. rw links (v.queues q h);
    member = λ q a h i. grind (arith, same a, v.member q a h, free q h);
    status = λ q a h i. grind (arith, same a, v.status q a h, free q h);
    in_table = v.in_table;
  }

  module _ (q : Ptr) (hq : q ≢ null) where
    pub Inv-push :
        Free qs x
        → x ≤ num_max_task
        → IsQueue k'.links q (qs q ++ x ∷ [])
        → Outside q (x ∷ qs q) k.links k'.links
        → ((a : Ptr) → a ≢ x → k'.pcb a ≡ k.pcb a)
        → (k'.pcb x).in_queue ≡ q
        → (k'.pcb x).status ≡ status_in q
        → Inv k' (put qs q (qs q ++ x ∷ []))
    Inv-push free le is out same in_queue status = record {
      queues = λ r h. elim (Bool-cases (r == q)) [
        | inl e ↦ rw (e, (==_iff r q).0 e) is
        | inr d ↦ rw d (
            IsQueue-other r (qs r) out (λ e. ground arith)
              (λ a i. ground (arith, Inv-disjoint r q a v h hq, free r h)) (v.queues r h))
      ];
      member = λ r a h i.
          ground (
            arith,
            same a,
            v.member r a h,
            v.member q a hq,
            free r h,
            has-append a (qs q) (x ∷ []),
          );
      status = λ r a h i. elim (Bool-cases (r == q)) [
        | inl e ↦
            rw ((==_iff r q).0 e)
              (ground (arith, same a, v.status q a hq, has-append a (qs q) (x ∷ [])))
        | inr d ↦ ground (arith, same a, v.status r a h, free r h)
      ];
      in_table = λ r a h i.
          ground (arith, v.in_table r a h, v.in_table q a hq, has-append a (qs q) (x ∷ []));
    }

    -- What is still in a queue was there before, and is not the process taken out.
    still_in :
        (ys zs : List Ptr)
        → qs q ≡ ys ++ x ∷ zs
        → (r a : Ptr) → r ≢ null
        → has a (put qs q (ys ++ zs) r) ≡ true
        → (has a (qs r) ≡ true) × (a ≢ x)
    still_in ys zs cut r a h i =
        let mine : has x (qs q) ≡ true = rw cut (ground (arith, has-append x ys (x ∷ zs))) in
        let gone = IsQueue-not-in q ys x zs (let w = v.queues q hq in rw cut at w) in
        let all : has a (qs q) ≡ (has a ys || has a (x ∷ zs)) = rw cut (has-append a ys (x ∷ zs)) in
        elim (Bool-cases (r == q)) [
          | inl e ↦
              rw ((==_iff r q).0 e) (ground (arith, all, has-append a ys zs), λ e'. ground (arith))
          | inr d ↦ (
            ground arith,
            λ e'. ground (arith, Inv-disjoint q r x v hq h (λ e. ground arith) mine),
          )
        ]

    pub Inv-remove :
        (ys zs : List Ptr)
        → qs q ≡ ys ++ x ∷ zs
        → IsQueue k'.links q (ys ++ zs)
        → Outside q (ys ++ x ∷ zs) k.links k'.links
        → ((a : Ptr) → a ≢ x → k'.pcb a ≡ k.pcb a)
        → Inv k' (put qs q (ys ++ zs)) × Free (put qs q (ys ++ zs)) x
    Inv-remove ys zs cut is out same = (
      record {
        queues = λ r h. elim (Bool-cases (r == q)) [
          | inl e ↦ rw (e, (==_iff r q).0 e) is
          | inr d ↦ rw d (
              IsQueue-other r (qs r) out (λ e. ground arith)
                (λ a i. rw (← cut) (Inv-disjoint r q a v h hq (λ e. ground arith) i))
                (v.queues r h))
        ];
        member = λ r a h i.
            let (old, ne) = still_in ys zs cut r a h i in ground (arith, same a, v.member r a h);
        status = λ r a h i.
            let (old, ne) = still_in ys zs cut r a h i in
            ap_status (same a ne) (v.status r a h old);
        in_table = λ r a h i. v.in_table r a h (still_in ys zs cut r a h i).0;
      },
      λ r h. elim (Bool-cases (has x (put qs q (ys ++ zs) r))) [
        | inl i ↦ absurd ((still_in ys zs cut r x h i).1 refl)
        | inr i ↦ i
      ],
    )

-- A free process joins the queue `q`, which holds `rs`, with the queue and the status that say so.
pub Inv-join :
    (k k' : Kernel) (qs : Ptr → List Ptr) (x q : Ptr) (rs : List Ptr)
    → qs q ≡ rs
    → Inv k qs
    → q ≢ null
    → Free qs x
    → x ≤ num_max_task
    → IsQueue k'.links q (rs ++ x ∷ []) × Outside q (x ∷ rs) k.links k'.links
    → ((a : Ptr) → a ≢ x → k'.pcb a ≡ k.pcb a)
    → (k'.pcb x).in_queue ≡ q
    → (k'.pcb x).status ≡ status_in q
    → Inv k' (put qs q (rs ++ x ∷ []))
Inv-join k k' qs x q rs e =
    rw (← e) (λ v hq free le pushed. Inv-push k k' qs x v q hq free le pushed.0 pushed.1)

-- The lists of the queues matter pointwise.
pub Inv-cong :
    {k : Kernel} (qs qs' : Ptr → List Ptr) → ((q : Ptr) → qs q ≡ qs' q) → Inv k qs → Inv k qs'
Inv-cong {k} qs qs' same v = subst (Inv k) (fun_ext same) v

-- A queue holds at most the 32 processes of the table.
pub Inv-length :
    {k : Kernel} (qs : Ptr → List Ptr) (q : Ptr)
    → Inv k qs
    → q ≢ null
    → length (qs q) ≤ num_max_task
Inv-length qs q v h =
    length-IsQueue q num_max_task (qs q) (v.queues q h) (λ a i. v.in_table q a h i)

-- The invariant reads of a process only `in_queue` and `status`.
pub Inv-same :
    {k : Kernel} (k' : Kernel) {qs : Ptr → List Ptr}
    → Inv k qs
    → k'.links ≡ k.links
    → ((a : Ptr)
        → ((k'.pcb a).in_queue ≡ (k.pcb a).in_queue) × ((k'.pcb a).status ≡ (k.pcb a).status))
    → Inv k' qs
Inv-same k' v links same = record {
  queues = λ q h. rw links (v.queues q h);
  member = λ q a h i. (same a).0 ∙ v.member q a h i;
  status = λ q a h i. (same a).1 ∙ v.status q a h i;
  in_table = v.in_table;
}
