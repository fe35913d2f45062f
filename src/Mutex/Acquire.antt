-- ===== src/Mutex/Acquire.antt =====
-- What acquiring a mutex lock does (kernel/locking/lock.c).
use ucas_operating_system_la.Base.{
  ℕ, ◌<◌, ◌==◌, none, some, Option, Bool-cases, sym, ==_iff, ==_refl, ◌∙◌, find_from-absent,
  find_from-only, find_from-some, find_from-none, inl, inr, fun_ext, ◌≤◌, ◌≡◌, ◌≢◌, refl, ap, List,
  [], ◌∷◌, ◌++◌, arith, put, ==_ne,
}
use mathlib.Core.Path.{ap₂, subst}
use ucas_operating_system_la.Base.Run.{Runs, runs}
use ucas_operating_system_la.Queue.{Ptr, null}
use ucas_operating_system_la.Kernel.{
  Kernel, unlocked, locked, lock_queue, task_running, num_max_task, max_lock,
}
use ucas_operating_system_la.Kernel.Inv.{Inv, Inv-same}
use ucas_operating_system_la.Wakeup.Note.{free_slot, slot_of, slot_set, proc_get_lock_lem}
use ucas_operating_system_la.Lock.{do_mutex_lock_release}
use ucas_operating_system_la.Lock.Release.{do_mutex_lock_release-quiet}
use ucas_operating_system_la.Sched.Order.{candidates, rest_ready}
use ucas_operating_system_la.Sched.Context.{SwitchedTo}
use ucas_operating_system_la.Process.Moves.{blocked_on, do_block-SwitchedTo}
use ucas_operating_system_la.Mutex.{do_mutex_lock_acquire}

-- The current process holds the lock: the lock is locked and, if the process has a slot free for it, is
-- among its notes; no other lock and no other process has changed.
pub record Holds (k : Kernel) (lock : Ptr) (k' : Kernel) : Type 0 where
  pub taken : k'.lock_status lock ≡ locked
  pub noted :
      (j : ℕ)
      → j < max_lock
      → (k.pcb k.current_running).locks_got j ≡ null
      → (i : ℕ) × (i < max_lock) × ((k'.pcb k.current_running).locks_got i ≡ lock)
  pub rest : k' ≡ record k { pcb = k'.pcb; lock_status = put k.lock_status lock locked }
  pub fields : (a : Ptr) → k'.pcb a ≡ record (k.pcb a) { locks_got = (k'.pcb a).locks_got }
  pub others : (a : Ptr) → a ≢ k.current_running → k'.pcb a ≡ k.pcb a

module _ (k : Kernel) (qs : Ptr → List Ptr) (lock : Ptr) (v : Inv k qs) (hl : lock ≢ null)
    (hc : k.current_running ≢ null) where
  -- The state after the lock is taken, with the note of it in the slot `o`.
  abbrev taken_at : Option ℕ → Kernel
  taken_at o = record (slot_set k.current_running o lock k) {
    lock_status = put k.lock_status lock locked;
  }

  acquire_unlocked :
      (o : Option ℕ)
      → free_slot k ≡ o
      → k.lock_status lock ≡ unlocked
      → do_mutex_lock_acquire lock k ≡ some (tt, taken_at o)
  unfolding do_mutex_lock_acquire
  acquire_unlocked none f e =
      rw (==_ne lock null hl, e, proc_get_lock_lem k lock hc, f, ==_ne lock null hl) refl
  acquire_unlocked (some m) f e =
      rw (==_ne lock null hl, e, proc_get_lock_lem k lock hc, f, ==_ne lock null hl) refl

  taken_at-Holds : (o : Option ℕ) → free_slot k ≡ o → Holds k lock (taken_at o)
  taken_at-Holds none f = record {
    taken = ground arith;
    noted = λ j lt z. absurd (
        ground (
          arith,
          z,
          find_from-none (λ j. (k.pcb k.current_running).locks_got j == null) 0 max_lock j f
              (omega arith) lt,
        ));
    rest = refl;
    fields = λ a. refl;
    others = λ a ne. refl;
  }
  taken_at-Holds (some m) f = record {
    taken = ground arith;
    noted = λ j lt z. (
      m,
      omega (
        arith,
        (find_from-some (λ j. (k.pcb k.current_running).locks_got j == null) 0 max_lock m f).1,
      ),
      ground arith,
    );
    rest = refl;
    fields = λ a. ground arith;
    others = λ a ne. ground arith;
  }

  -- A free slot that is written and cleared again is as before.
  pcb_back :
      (m : ℕ)
      → (k.pcb k.current_running).locks_got m ≡ null
      → (slot_set k.current_running (some m) null (taken_at (some m))).pcb ≡ k.pcb
  pcb_back m z =
      let c : Ptr = k.current_running in
      let notes : ℕ → Ptr = (k.pcb c).locks_got in
      let same_notes : put (put notes m lock) m null ≡ notes = fun_ext λ j.
        elim (Bool-cases (j == m)) [
          | inl d ↦ let same : notes j ≡ null = rw ((==_iff j m).0 d) z in ground (arith, same)
          | inr d ↦ ground arith
        ] in
      let mine : (slot_set c (some m) null (taken_at (some m))).pcb c ≡ k.pcb c =
        rw (==_refl c) (ap (λ n. record (k.pcb c) { locks_got = n }) same_notes) in
      fun_ext λ a. elim (Bool-cases (a == c)) [
        | inl d ↦
            subst (λ b. (slot_set c (some m) null (taken_at (some m))).pcb b ≡ k.pcb b)
              (sym ((==_iff a c).0 d)) mine
        | inr d ↦ ground arith
      ]

  module _ (e : k.lock_status lock ≡ unlocked) (nobody : qs (lock_queue lock) ≡ [])
      (fresh : (j : ℕ) → j < max_lock → (k.pcb k.current_running).locks_got j ≢ lock) where
    status_back : put (put k.lock_status lock locked) lock unlocked ≡ k.lock_status
    status_back = fun_ext λ a. elim (Bool-cases (a == lock)) [
      | inl d ↦
          let same : k.lock_status a ≡ unlocked = rw ((==_iff a lock).0 d) e in ground (arith, same)
      | inr d ↦ ground arith
    ]

    release_taken :
        (o : Option ℕ) → free_slot k ≡ o → do_mutex_lock_release lock (taken_at o) ≡ some (tt, k)
    release_taken none f =
        let absent : slot_of lock (taken_at none) ≡ none =
          find_from-absent (λ j. (k.pcb k.current_running).locks_got j == lock) 0 max_lock
            (λ j l u. ==_ne ((k.pcb k.current_running).locks_got j) lock (fresh j u)) in
        do_mutex_lock_release-quiet (taken_at none) qs lock (Inv-same _ v refl (λ a. (refl, refl)))
          hl hc nobody
        ∙ ap
            (λ s. some (
              tt,
              record (slot_set k.current_running s null (taken_at none)) {
                lock_status = put (put k.lock_status lock locked) lock unlocked;
              },
            ))
            absent
        ∙ ap (λ l. some (tt, record k { lock_status = l })) status_back
    release_taken (some m) f =
        let c : Ptr = k.current_running in
        let notes : ℕ → Ptr = (k.pcb c).locks_got in
        let (lo, up, empty) = find_from-some (λ j. notes j == null) 0 max_lock m f in
        let here : slot_of lock (taken_at (some m)) ≡ some m =
          find_from-only (λ j. ((taken_at (some m)).pcb c).locks_got j == lock) 0 max_lock m lo
            (omega arith) (ground (arith, ==_refl lock)) (λ j l u d. ground (arith, fresh j u)) in
        do_mutex_lock_release-quiet (taken_at (some m)) qs lock
          (Inv-same _ v refl (λ a. ground arith)) hl hc nobody
        ∙ ap
            (λ s. some (
              tt,
              record (slot_set c s null (taken_at (some m))) {
                lock_status = put (put k.lock_status lock locked) lock unlocked;
              },
            ))
            here
        ∙ ap₂ (λ p l. some (tt, record k { pcb = p; lock_status = l }))
            (pcb_back m ((==_iff (notes m) null).0 empty)) status_back

  -- When the queues are consistent, there is a current process, and the lock is unlocked, waited for
  -- by nobody and not among the process's notes, do_mutex_lock_acquire ends with the lock locked
  -- and, if a slot is free, noted in the process, and nothing else changed, and
  -- do_mutex_lock_release then ends in exactly the state before.
  pub do_mutex_lock_release-acquire :
      k.lock_status lock ≡ unlocked
      → qs (lock_queue lock) ≡ []
      → ((j : ℕ) → j < max_lock → (k.pcb k.current_running).locks_got j ≢ lock)
      → Runs
          (λ _ k'. Holds k lock k' × (do_mutex_lock_release lock k' ≡ some (tt, k)))
          (do_mutex_lock_acquire lock k)
  do_mutex_lock_release-acquire e nobody fresh =
      rw (acquire_unlocked (free_slot k) refl e)
        (runs (taken_at-Holds (free_slot k) refl, release_taken e nobody fresh (free_slot k) refl))

  -- `do_mutex_lock_acquire` of a locked lock puts the running process at the end of those that wait
  -- for the lock and lets the first process that is ready or due run.
  pub do_mutex_lock_acquire-waits :
      (y : Ptr) (ys : List Ptr)
      → k.lock_status lock ≡ locked
      → k.current_running ≤ num_max_task
      → (k.pcb k.current_running).status ≡ task_running
      → candidates k qs ≡ y ∷ ys
      → Runs
          (λ _. SwitchedTo (blocked_on (lock_queue lock) k) y (
            rest_ready k
              (put qs (lock_queue lock) (qs (lock_queue lock) ++ k.current_running ∷ []))
              ys))
          (do_mutex_lock_acquire lock k)
  unfolding do_mutex_lock_acquire
  do_mutex_lock_acquire-waits y ys e le run c = rw (==_ne lock null hl) (
      rw e (
        do_block-SwitchedTo k qs v hc le run (lock_queue lock) y ys (omega arith) (omega arith)
          (omega arith) c))
