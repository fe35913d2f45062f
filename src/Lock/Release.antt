-- ===== src/Lock/Release.antt =====
-- What releasing a mutex lock does (kernel/locking/lock.c).
use ucas_operating_system_la.Base.{
  ℕ, some, sym, ◌<◌, ◌≡◌, ◌≢◌, refl, ap, ◌∙◌, List, [], ◌∷◌, ◌++◌, arith, put, ==_ne,
}
use mathlib.Core.Path.{subst}
use ucas_operating_system_la.Base.Run
use ucas_operating_system_la.Base.Run.{Runs, runs}
use ucas_operating_system_la.Queue.{Ptr, null}
use ucas_operating_system_la.Queue.Spec.{IsQueue}
use ucas_operating_system_la.Queue.Push.{queue_is_empty_lem}
use ucas_operating_system_la.Kernel.{
  Kernel, Pcb, LockStatus, unlocked, lock_queue, ready_queue, max_lock,
}
use ucas_operating_system_la.Kernel.Inv.{Inv, Inv-same}
use ucas_operating_system_la.Kernel.Grown.{Grown, Grown-refl, Grown-move}
use ucas_operating_system_la.Kernel.Keeps.{Moves, Moves-trans, Keeps-Moves, Keeps-lock_status}
use ucas_operating_system_la.Wakeup.Note.{
  Noted-Inv, Noted-current, Noted-lock_status, Noted-Moves, proc_get_lock-Above, slot_set, slot_of,
  slot_set-Noted, Noted-links, proc_lose_lock_lem, proc_lose_lock-Above, Above,
}
use ucas_operating_system_la.Wakeup.Unblock.{do_unblock_one-moves}
use ucas_operating_system_la.Lock.{do_mutex_lock_release}

-- The queues after the first of the waiting processes is made ready.
abbrev pub hand_over : Ptr → (Ptr → List Ptr) → List Ptr → Ptr → List Ptr
hand_over q qs [] = qs
hand_over q qs (x ∷ xs) = put (put qs q xs) ready_queue (qs ready_queue ++ x ∷ [])

-- The status of the lock after that.
abbrev pub status_after : List Ptr → LockStatus → LockStatus
status_after [] s = unlocked
status_after (x ∷ xs) s = s

pub Grown-hand_over :
    (q : Ptr) (qs : Ptr → List Ptr) (xs : List Ptr)
    → q ≢ null
    → q ≢ ready_queue
    → qs q ≡ xs
    → Grown qs (hand_over q qs xs)
Grown-hand_over q qs [] hq nr e = Grown-refl qs
Grown-hand_over q qs (x ∷ xs) hq nr e =
    Grown-move qs q xs (x ∷ []) hq nr (λ a h. let i = rw e at h in ground arith)

module _ (k : Kernel) (qs : Ptr → List Ptr) (lock : Ptr) where
  -- What a release leaves when `xs` waits for the lock.
  abbrev pub Released : List Ptr → Kernel → Type 0
  Released xs k' =
      Inv k' (hand_over (lock_queue lock) qs xs)
      × (k'.lock_status lock ≡ status_after xs (k.lock_status lock))
      × ((a : Ptr) → a ≢ lock → k'.lock_status a ≡ k.lock_status a)
      × Moves k k'
      × ((p : Ptr) (i : ℕ) → (k.pcb p).locks_got i ≡ lock → i < max_lock → Above p i k k')

  pub released :
      (xs : List Ptr)
      → Inv k qs
      → lock ≢ null
      → k.current_running ≢ null
      → qs (lock_queue lock) ≡ xs
      → Runs (λ _. Released xs) (do_mutex_lock_release lock k)
  unfolding do_mutex_lock_release
  released [] v hl hc e = Run.bind (proc_lose_lock-Above k lock hc) λ _ k1 (n1, low).
      let v1 = Noted-Inv n1 v in
      let is = rw e at (v1.queues (lock_queue lock) (omega arith)) in
      rw (queue_is_empty_lem k1.links (lock_queue lock) [] is) (
        rw (==_ne lock null hl) (
          runs (
            Inv-same _ v1 refl (λ a. (refl, refl)),
            ground arith,
            λ a d. ground (arith, ap (λ (f : Ptr → LockStatus). f a) (Noted-lock_status n1)),
            Moves-trans (Noted-Moves n1) (record { rest = refl; fields = λ a. refl }),
            λ p i got lt. (low p i got lt).0,
          )))
  released (x ∷ xs) v hl hc e = Run.bind (proc_lose_lock-Above k lock hc) λ _ k1 (n1, low).
      let v1 = Noted-Inv n1 v in
      let is = rw e at (v1.queues (lock_queue lock) (omega arith)) in
      let hc1 : k1.current_running ≢ null = rw (Noted-current n1) hc in
      rw (queue_is_empty_lem k1.links (lock_queue lock) (x ∷ xs) is) (
        Run.bind (proc_get_lock-Above k1 lock hc1) λ _ k2 (n2, low2).
          Run.mono
            (do_unblock_one-moves k2 qs (lock_queue lock) x xs (Noted-Inv n2 v1) (omega arith)
              (omega arith) e)
            λ _ k3 (v3, kept, spares).
              let ls = Keeps-lock_status kept ∙ Noted-lock_status n2 ∙ Noted-lock_status n1 in
              (
                v3,
                ap (λ (f : Ptr → LockStatus). f lock) ls,
                λ a d. ap (λ (f : Ptr → LockStatus). f a) ls,
                Moves-trans (Moves-trans (Noted-Moves n1) (Noted-Moves n2)) (Keeps-Moves kept),
                λ p i got lt.
                    let (above, room) = low p i got lt in
                    λ j h.
                      ap (λ (x : Pcb). x.locks_got j) (kept.fields p)
                      ∙ low2 p i room j (λ same. h (sym (Noted-current n1) ∙ same))
                      ∙ above j h,
              ))

  -- With nobody waiting, exactly the note and the status of the lock change.
  pub do_mutex_lock_release-quiet :
      Inv k qs
      → lock ≢ null
      → k.current_running ≢ null
      → qs (lock_queue lock) ≡ []
      → do_mutex_lock_release lock k
        ≡ some (
          tt,
          record (slot_set k.current_running (slot_of lock k) null k) {
            lock_status = put k.lock_status lock unlocked;
          },
        )
  unfolding do_mutex_lock_release
  do_mutex_lock_release-quiet v hl hc e =
      let is = rw e at (v.queues (lock_queue lock) (omega arith)) in
      let n = slot_set-Noted k k.current_running (slot_of lock k) null in
      let k1 : Kernel = slot_set k.current_running (slot_of lock k) null k in
      let is1 : IsQueue k1.links (lock_queue lock) [] =
        subst (λ l. IsQueue l (lock_queue lock) []) (sym (Noted-links n)) is in
      rw
        (
          proc_lose_lock_lem k lock hc,
          queue_is_empty_lem k1.links (lock_queue lock) [] is1,
          ==_ne lock null hl,
        )
        (ap (λ s. some (tt, record k1 { lock_status = put s lock unlocked })) (Noted-lock_status n))

  -- When the queues are consistent, the lock is not NULL and there is a current process,
  -- do_mutex_lock_release ends: with nobody waiting the lock is unlocked and the queues stay,
  -- otherwise the lock keeps its status and the first waiting process goes to the end of the ready
  -- queue; no other lock changes, and of a process only its status, its queue and its notes of
  -- locks.
  pub do_mutex_lock_release-hands_over :
      Inv k qs
      → lock ≢ null
      → k.current_running ≢ null
      → Runs
          (λ _ k'.
            Inv k' (hand_over (lock_queue lock) qs (qs (lock_queue lock)))
            × (k'.lock_status lock ≡ status_after (qs (lock_queue lock)) (k.lock_status lock))
            × ((a : Ptr) → a ≢ lock → k'.lock_status a ≡ k.lock_status a)
            × Moves k k')
          (do_mutex_lock_release lock k)
  do_mutex_lock_release-hands_over v hl hc =
      Run.mono (released (qs (lock_queue lock)) v hl hc refl)
        λ _ k' (v', s, o, m, low). (v', s, o, m)
