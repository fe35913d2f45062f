-- ===== src/Wakeup/Loop.antt =====
-- The walk over a queue that wakes the processes which pass a test (kernel/sched/sched.c).
use mathlib.Core.List.{append-nil, append_assoc}
use ucas_operating_system_la.Base.{
  ℕ, zero, suc, ◌<◌, ◌≡◌, ◌≢◌, refl, sym, ap, ◌∙◌, Bool, true, false, bnot, List, [], ◌∷◌, ◌++◌,
  arith, length, has, has-append, put, ==_ne, Bool-cases, inl, inr, if◌then◌else◌,
}
use ucas_operating_system_la.Base.Run
use ucas_operating_system_la.Base.Run.{Runs, runs}
use ucas_operating_system_la.Queue.{Ptr, null}
use ucas_operating_system_la.Queue.Spec.{IsQueue, first, next-first}
use ucas_operating_system_la.Queue.Push.{queue_push-append}
use ucas_operating_system_la.Queue.Remove.{queue_remove-append}
use ucas_operating_system_la.Kernel.{Kernel, Pcb, Status, ready_queue}
use ucas_operating_system_la.Kernel.Inv.{Inv, Inv-remove, Inv-join, Inv-cong}
use ucas_operating_system_la.Kernel.Keeps.{Keeps, Keeps-refl, Keeps-trans, on_links-bind}
use ucas_operating_system_la.Wakeup.{wake_loop}

-- The items that pass a test, in order.
abbrev pub select : (Ptr → Bool) → List Ptr → List Ptr
select t [] = []
select t (x ∷ xs) = if t x then x ∷ select t xs else select t xs

-- The test does not read what waking a process changes.
abbrev pub IgnoresQueue : (Pcb → Bool) → Type 0
IgnoresQueue test =
    (p : Pcb) (q : Ptr) (s : Status) → test (record p { in_queue = q; status = s }) ≡ test p

test-Keeps :
    {k k' : Kernel} (test : Pcb → Bool) (a : Ptr)
    → IgnoresQueue test
    → Keeps k k'
    → test (k'.pcb a) ≡ test (k.pcb a)
test-Keeps {k} {k'} test a ignores kept =
    ap test (kept.fields a) ∙ ignores (k.pcb a) (k'.pcb a).in_queue (k'.pcb a).status

-- The processes outside the list are as before.
abbrev pub Spares : List Ptr → Kernel → Kernel → Type 0
Spares xs k k' = (a : Ptr) → has a xs ≡ false → k'.pcb a ≡ k.pcb a

module _ (q : Ptr) (hq : q ≢ null) (nr : q ≢ ready_queue) where
  -- One process is woken: it goes from its place in the queue to the end of the ready queue, and the
  -- walk goes on with the one behind it.
  wake_one :
      {Q : Unit {0} → Kernel → Type 0} (test : Pcb → Bool) (n : ℕ) (k : Kernel)
      (qs : Ptr → List Ptr) (kept : List Ptr) (x : Ptr) (zs : List Ptr)
      → Inv k qs
      → qs q ≡ kept ++ x ∷ zs
      → test (k.pcb x) ≡ true
      → ((k1 : Kernel)
          → Inv k1 (put (put qs q (kept ++ zs)) ready_queue (qs ready_queue ++ x ∷ []))
          → Keeps k k1
          → ((a : Ptr) → a ≢ x → k1.pcb a ≡ k.pcb a)
          → Runs Q (wake_loop q test n (first zs) k1))
      → Runs Q (wake_loop q test (suc n) x k)
  unfolding wake_loop
  wake_one test n k qs kept x zs v e pass next =
      let is : IsQueue k.links q (kept ++ x ∷ zs) = let w = v.queues q hq in rw e at w in
      let (link, ne) = next-first q kept x zs is in
      let nx = ==_ne x null ne in
      let le = v.in_table q x hq (rw e (ground (arith, has-append x kept (x ∷ zs)))) in
      rw nx (
        rw nx (
          rw pass (
            on_links-bind k _ (queue_remove-append k.links q kept x zs is)
              λ a s (got, is', out, p, m).
                let (v1, free) =
                  Inv-remove k (record k { links = s }) qs x v q hq kept zs e is' out
                    (λ a ne. refl) in
                let ready : put qs q (kept ++ zs) ready_queue ≡ qs ready_queue = ground arith in
                let is1 = rw ready at (v1.queues ready_queue (omega arith)) in
                let fresh = rw ready at (free ready_queue (omega arith)) in
                rw (got, nx)
                  (on_links-bind _ _
                    (queue_push-append s ready_queue x (qs ready_queue) is1 ne fresh)
                    λ _ s2 pushed. rw nx (
                      next _
                        (Inv-join (record k { links = s }) _ (put qs q (kept ++ zs)) x ready_queue
                          (qs ready_queue) ready v1 (omega arith) free le pushed
                          (λ a d. ground arith) (ground arith) (ground arith))
                        (record { rest = refl; fields = λ a. ground arith })
                        (λ a d. ground arith))))))

  module _ (test : Pcb → Bool) (ignores : IgnoresQueue test) (t : Ptr → Bool) where
    -- A walk with enough fuel ends. The processes of `zs` that pass the test go to the end of the ready
    -- queue in their order, the others stay in theirs, behind `kept`, and as they were.
    pub wake_loop-moves :
        (n : ℕ) (k : Kernel) (qs : Ptr → List Ptr) (kept zs : List Ptr)
        → Inv k qs
        → qs q ≡ kept ++ zs
        → length zs < n
        → ((a : Ptr) → test (k.pcb a) ≡ t a)
        → Runs
            (λ _ k'.
              Inv k' (
                put
                  (put qs q (kept ++ select (λ a. bnot (t a)) zs))
                  ready_queue
                  (qs ready_queue ++ select t zs))
              × Keeps k k'
              × Spares (select t zs) k k')
            (wake_loop q test n (first zs) k)
    unfolding wake_loop
    wake_loop-moves zero k qs kept zs v e h same = absurd (omega arith)
    wake_loop-moves (suc n) k qs kept [] v e h same = runs (
      Inv-cong qs (put (put qs q (kept ++ [])) ready_queue (qs ready_queue ++ []))
          (λ r. ground (arith, append-nil (qs ready_queue))) v,
      Keeps-refl k,
      λ a i. refl,
    )
    wake_loop-moves (suc n) k qs kept (x ∷ zs) v e h same = elim (Bool-cases (t x)) [
      | inl pass ↦
          let qs1 : Ptr → List Ptr =
            put (put qs q (kept ++ zs)) ready_queue (qs ready_queue ++ x ∷ []) in
          rw pass (
            wake_one test n k qs kept x zs v e (same x ∙ pass) λ k1 v1 kept1 same1.
              Run.mono
                (wake_loop-moves n k1 qs1 kept zs v1 (ground arith) (omega arith)
                  λ a. test-Keeps test a ignores kept1 ∙ same a)
                λ _ k2 (v2, kept2, spares). (
                  Inv-cong
                      (put (put qs1 q (kept ++ select (λ a. bnot (t a)) zs)) ready_queue
                        (qs1 ready_queue ++ select t zs))
                      (put (put qs q (kept ++ select (λ a. bnot (t a)) zs)) ready_queue
                        (qs ready_queue ++ x ∷ select t zs))
                      (λ r. ground (arith, append_assoc (qs ready_queue) (x ∷ []) (select t zs)))
                      v2,
                  Keeps-trans kept1 kept2,
                  λ a i. ground (arith, spares a, same1 a),
                ))
      | inr fail ↦
          let is : IsQueue k.links q (kept ++ x ∷ zs) = let w = v.queues q hq in rw e at w in
          let (link, ne) = next-first q kept x zs is in
          let nx = ==_ne x null ne in
          let all = append_assoc kept (x ∷ []) zs in
          rw (fail, nx)
            (rw nx (
              rw (same x, fail)
                (rw nx (
                  rw link (
                    Run.mono
                      (wake_loop-moves n k qs (kept ++ x ∷ []) zs v (e ∙ sym all) (omega arith)
                        same)
                      λ _ k2 (v2, kept2, spares). (
                        Inv-cong
                            (put (put qs q ((kept ++ x ∷ []) ++ select (λ a. bnot (t a)) zs))
                              ready_queue (qs ready_queue ++ select t zs))
                            (put (put qs q (kept ++ x ∷ select (λ a. bnot (t a)) zs)) ready_queue
                              (qs ready_queue ++ select t zs))
                            (λ r.
                              ground
                                (arith, append_assoc kept (x ∷ []) (select (λ a. bnot (t a)) zs)))
                            v2,
                        kept2,
                        spares,
                      ))))))
    ]
