-- ===== src/Sched/ReleaseLocks.antt =====
-- How `free_proc` of kernel/sched/sched.c gives the locks of a process back.
use ucas_operating_system_la.Base.{
  ℕ, zero, suc, ◌+◌, ◌<◌, ◌≤◌, ◌≡◌, ◌≢◌, refl, sym, ap, ◌∙◌, fun_ext, List, [], ◌∷◌, arith, put,
  Bool-cases, inl, inr, ==_ne, ◌==◌, if◌then◌else◌,
}
use mathlib.Core.Path.{subst}
use ucas_operating_system_la.Base.Run
use ucas_operating_system_la.Base.Run.{Runs, runs}
use ucas_operating_system_la.Queue.{Ptr, null}
use ucas_operating_system_la.Kernel.{Kernel, LockStatus, max_lock, lock_queue}
use ucas_operating_system_la.Kernel.Inv.{Inv, Inv-same}
use ucas_operating_system_la.Kernel.Grown.{Grown, Grown-refl, Grown-trans}
use ucas_operating_system_la.Kernel.Keeps.{Moves, Moves-refl, Moves-trans, Moves-current}
use ucas_operating_system_la.Wakeup.Note.{Above}
use ucas_operating_system_la.Lock.{do_mutex_lock_release}
use ucas_operating_system_la.Lock.Release.{hand_over, status_after, Grown-hand_over, released}
use ucas_operating_system_la.Sched.{release_locks}

-- The locks noted in the `n` slots from `i` on.
pub locks_from : ℕ → ℕ → (ℕ → Ptr) → List Ptr
locks_from zero i notes = []
locks_from (suc n) i notes =
    let rest = locks_from n (suc i) notes in if notes i == null then rest else notes i ∷ rest

-- The queues after a lock is given back.
abbrev pub given_back : Ptr → (Ptr → List Ptr) → Ptr → List Ptr
given_back lock qs = hand_over (lock_queue lock) qs (qs (lock_queue lock))

-- The queues after the locks of a list are given back one after the other.
pub queues_after : List Ptr → (Ptr → List Ptr) → Ptr → List Ptr
queues_after [] qs = qs
queues_after (l ∷ ls) qs = queues_after ls (given_back l qs)

-- The status of the locks after that.
pub statuses_after : List Ptr → (Ptr → List Ptr) → (Ptr → LockStatus) → Ptr → LockStatus
statuses_after [] qs s = s
statuses_after (l ∷ ls) qs s =
    statuses_after ls (given_back l qs) (put s l (status_after (qs (lock_queue l)) (s l)))

locks_from-cong :
    (n i : ℕ) (f g : ℕ → Ptr) → ((j : ℕ) → i ≤ j → f j ≡ g j) → locks_from n i f ≡ locks_from n i g
unfolding locks_from
locks_from-cong zero i f g h = refl
locks_from-cong (suc n) i f g h =
    ground (arith, h i, locks_from-cong n (suc i) f g (λ j l. h j (omega arith)))

pub Grown-queues_after : (ls : List Ptr) (qs : Ptr → List Ptr) → Grown qs (queues_after ls qs)
unfolding queues_after
Grown-queues_after [] qs = Grown-refl qs
Grown-queues_after (l ∷ ls) qs =
    Grown-trans
      (Grown-hand_over (lock_queue l) qs (qs (lock_queue l)) (omega arith) (omega arith) refl)
      (Grown-queues_after ls (given_back l qs))

-- The locks `ls` are given back.
pub record Gives (ls : List Ptr) (k : Kernel) (qs : Ptr → List Ptr) (k' : Kernel) : Type 0 where
  pub valid : Inv k' (queues_after ls qs)
  pub locks : k'.lock_status ≡ statuses_after ls qs k.lock_status
  pub moves : Moves k k'

Gives-cons :
    {k l m : Kernel} {qs : Ptr → List Ptr} (lock : Ptr) (ls : List Ptr)
    → Gives (lock ∷ []) k qs l
    → Gives ls l (given_back lock qs) m
    → Gives (lock ∷ ls) k qs m
unfolding queues_after statuses_after
Gives-cons {qs} lock ls g h = record {
  valid = h.valid;
  locks = h.locks ∙ ap (λ s. statuses_after ls (given_back lock qs) s) g.locks;
  moves = Moves-trans g.moves h.moves;
}

-- One lock, the note of it in the slot `i` of `p` struck out.
release_slot-Gives :
    (k : Kernel) (qs : Ptr → List Ptr) (p : Ptr) (i : ℕ)
    → Inv k qs
    → (k.pcb p).locks_got i ≢ null
    → i < max_lock
    → k.current_running ≢ null
    → Runs
        (λ _ k'.
          Gives ((k.pcb p).locks_got i ∷ []) k qs (record k' {
            pcb = put k'.pcb p (record (k'.pcb p) { locks_got = put (k'.pcb p).locks_got i null });
          })
          × Above p i k k')
        (do_mutex_lock_release ((k.pcb p).locks_got i) k)
unfolding queues_after statuses_after
release_slot-Gives k qs p i v hl lt hc =
    let l : Ptr = (k.pcb p).locks_got i in
    Run.mono (released k qs l (qs (lock_queue l)) v hl hc refl) λ _ k' (v', s, o, m, low). (
      record {
        valid = Inv-same _ v' refl (λ a. ground arith);
        locks = fun_ext λ a. elim (Bool-cases (a == l)) [
          | inl e ↦ ground (arith, s)
          | inr d ↦ ground (arith, o a)
        ];
        moves = Moves-trans m (record { rest = refl; fields = λ a. ground arith });
      },
      low p i refl lt,
    )

-- The notes of `p` in the slots from `i` on are cleared, and those before it are as before, if `p` is not
-- the current process; one that is may note a lock again when it hands it over.
abbrev pub Cleared : Ptr → (n i : ℕ) → Kernel → Kernel → Type 0
Cleared p n i k k' =
    k.current_running ≢ p
    → (j : ℕ)
    → (i ≤ j → j < i + n → (k'.pcb p).locks_got j ≡ null)
      × (j < i → (k'.pcb p).locks_got j ≡ (k.pcb p).locks_got j)

-- The slot `i` of `p` is cleared; the other slots are as before, those above it if `p` is the current
-- process.
abbrev Struck : Ptr → ℕ → Kernel → Kernel → Type 0
Struck p i k k' =
    ((j : ℕ)
      → i ≢ j
      → (k.current_running ≡ p → i < j)
      → (k'.pcb p).locks_got j ≡ (k.pcb p).locks_got j)
    × ((k'.pcb p).locks_got i ≡ null)

Cleared-next :
    (k l m : Kernel) (p : Ptr) (n i : ℕ)
    → l.current_running ≡ k.current_running
    → Struck p i k l
    → Cleared p n (suc i) l m
    → Cleared p (suc n) i k m
Cleared-next k l m p n i same (above, struck) clear ne j =
    let (done, kept) = clear (λ s. ne (sym same ∙ s)) j in
    let here : j ≡ i → (m.pcb p).locks_got j ≡ null =
      λ s. kept (omega arith) ∙ ap (λ x. (l.pcb p).locks_got x) s ∙ struck in
    (
      λ h u. ground (arith, here, done),
      λ h. kept (omega arith) ∙ above j (omega arith) (λ s. absurd (ne s)),
    )

pub release_locks-Gives :
    (n i : ℕ) (k : Kernel) (qs : Ptr → List Ptr) (p : Ptr)
    → Inv k qs
    → p ≢ null
    → k.current_running ≢ null
    → i + n ≤ max_lock
    → Runs
        (λ _ k'. Gives (locks_from n i (k.pcb p).locks_got) k qs k' × Cleared p n i k k')
        (release_locks p i n k)
unfolding release_locks locks_from queues_after statuses_after
release_locks-Gives zero i k qs p v hp hc le = runs (
  record { valid = v; locks = refl; moves = Moves-refl k },
  λ ne j. (λ l u. absurd (omega arith), λ l. refl),
)
release_locks-Gives (suc n) i k qs p v hp hc le =
    let lock : Ptr = (k.pcb p).locks_got i in
    let qs1 : Ptr → List Ptr = given_back lock qs in
    elim (Bool-cases (lock == null)) [
      | inl e ↦
          rw (==_ne p null hp, e)
            (Run.mono (release_locks-Gives n (suc i) k qs p v hp hc (omega arith))
              λ _ k' (g, clear).
                (g, λ ne j. (λ l u. ground (arith, clear ne j), λ l. (clear ne j).1 (omega arith))))
      | inr d ↦ rw (==_ne p null hp) (
          rw d (
            Run.bind {P = λ _ k2. Gives (lock ∷ []) k qs k2 × Struck p i k k2}
              (Run.bind (release_slot-Gives k qs p i v (λ z. ground arith) (omega arith) hc)
                λ _ k1 (g, above).
                  rw (==_ne p null hp)
                    (runs (g, (λ j d h. ground (arith, above j h), ground arith))))
              λ _ k2 (g, struck).
                let same = Moves-current g.moves in
                Run.mono
                  (release_locks-Gives n (suc i) k2 qs1 p g.valid hp (rw same hc) (omega arith))
                  λ _ k3 (h, clear). (
                    Gives-cons lock (locks_from n (suc i) (k.pcb p).locks_got) g (
                        subst (λ ls. Gives ls k2 qs1 k3)
                          (locks_from-cong n (suc i) (k2.pcb p).locks_got (k.pcb p).locks_got
                            (λ j le. struck.0 j (omega arith) (λ s. omega arith)))
                          h),
                    Cleared-next k k2 k3 p n i same struck clear,
                  )))
    ]
