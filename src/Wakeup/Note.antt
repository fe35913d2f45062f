-- ===== src/Wakeup/Note.antt =====
-- `proc_get_lock` and `proc_lose_lock` of kernel/sched/sched.c: the current process's notes of the
-- locks it holds.
use ucas_operating_system_la.Base.{
  ℕ, ◌≤◌, ◌<◌, put, Bool-cases, Option-cases, inl, inr, ==_iff, find_from-some, find_from-le,
  find_from-none, Bool, true, ◌≡◌, ◌≢◌, refl, sym, ap, ◌∙◌, List, Option, none, some, arith, ◌==◌,
  ==_ne, find_from,
}
use mathlib.Core.Path.{ap₂}
use ucas_operating_system_la.Base.Run.{Runs, runs}
use ucas_operating_system_la.Queue.{Ptr, null, Links}
use ucas_operating_system_la.Kernel.{Kernel, Pcb, Status, LockStatus, max_lock}
use ucas_operating_system_la.Kernel.Inv.{Inv, Inv-same}
use ucas_operating_system_la.Kernel.Keeps.{Moves}
use ucas_operating_system_la.Wakeup.{proc_get_lock, proc_lose_lock, set_lock_slot}

-- Only the notes of who holds which lock have changed.
pub record Noted (k k' : Kernel) : Type 0 where
  pub rest : k' ≡ record k { pcb = k'.pcb }
  pub fields : (a : Ptr) → k'.pcb a ≡ record (k.pcb a) { locks_got = (k'.pcb a).locks_got }

-- The notes of `p` are as before, above the slot `i` if `p` is the current process.
abbrev pub Above : Ptr → ℕ → Kernel → Kernel → Type 0
Above p i k k' =
    (j : ℕ) → (k.current_running ≡ p → i < j) → (k'.pcb p).locks_got j ≡ (k.pcb p).locks_got j

-- If `p` is the current process, its first free slot is not above `i`.
abbrev pub Room : Ptr → ℕ → Kernel → Type 0
Room p i k =
    k.current_running ≡ p → (m : ℕ) × (m ≤ i) × (m < max_lock) × ((k.pcb p).locks_got m ≡ null)

-- The state after `set_lock_slot`.
abbrev pub slot_set : Ptr → Option ℕ → Ptr → Kernel → Kernel
slot_set p none lock k = k
slot_set p (some i) lock k = record k {
  pcb = put k.pcb p (record (k.pcb p) { locks_got = put (k.pcb p).locks_got i lock });
}

pub set_lock_slot_lem :
    (k : Kernel) (p : Ptr) (o : Option ℕ) (lock : Ptr)
    → p ≢ null
    → set_lock_slot p o lock k ≡ some (tt, slot_set p o lock k)
set_lock_slot_lem k p none lock ne = refl
set_lock_slot_lem k p (some i) lock ne = rw (==_ne p null ne) refl

pub slot_set-Noted :
    (k : Kernel) (p : Ptr) (o : Option ℕ) (lock : Ptr) → Noted k (slot_set p o lock k)
slot_set-Noted k p none lock = record { rest = refl; fields = λ a. refl }
slot_set-Noted k p (some i) lock = record { rest = refl; fields = λ a. ground arith }

-- The slot that a note of the lock goes to, and the one that it is in.
abbrev pub free_slot : Kernel → Option ℕ
free_slot k = find_from (λ j. (k.pcb k.current_running).locks_got j == null) 0 max_lock

abbrev pub slot_of : Ptr → Kernel → Option ℕ
slot_of lock k = find_from (λ j. (k.pcb k.current_running).locks_got j == lock) 0 max_lock

pub proc_get_lock_lem :
    (k : Kernel) (lock : Ptr)
    → k.current_running ≢ null
    → proc_get_lock lock k ≡ some (tt, slot_set k.current_running (free_slot k) lock k)
unfolding proc_get_lock
proc_get_lock_lem k lock ne =
    rw (==_ne k.current_running null ne)
      (set_lock_slot_lem k k.current_running (free_slot k) lock ne)

pub proc_lose_lock_lem :
    (k : Kernel) (lock : Ptr)
    → k.current_running ≢ null
    → proc_lose_lock lock k ≡ some (tt, slot_set k.current_running (slot_of lock k) null k)
unfolding proc_lose_lock
proc_lose_lock_lem k lock ne =
    rw (==_ne k.current_running null ne)
      (set_lock_slot_lem k k.current_running (slot_of lock k) null ne)

-- A slot that is not above `i`, if it is one of `p`, leaves the notes above it.
slot_set-Above :
    (k : Kernel) (m lock p i : ℕ)
    → (k.current_running ≡ p → m ≤ i)
    → Above p i k (slot_set k.current_running (some m) lock k)
slot_set-Above k m lock p i le j h =
    let c : Ptr = k.current_running in
    elim (Bool-cases (p == c)) [
      | inl e ↦
          let up : i < j = h (sym ((==_iff p c).0 e)) in
          let low : m ≤ i = le (sym ((==_iff p c).0 e)) in
          let same : (k.pcb c).locks_got j ≡ (k.pcb p).locks_got j =
            ap (λ a. (k.pcb a).locks_got j) (sym ((==_iff p c).0 e)) in
          ground (arith, same)
      | inr d ↦ ground arith
    ]

module _ (k : Kernel) (lock : Ptr) (ne : k.current_running ≢ null) where
  abbrev c : Ptr
  c = k.current_running

  -- A slot that is free, and not above `i`, is used for the note.
  pub proc_get_lock-Above :
      Runs
        (λ _ k'. Noted k k' × ((p : Ptr) (i : ℕ) → Room p i k → Above p i k k'))
        (proc_get_lock lock k)
  unfolding proc_get_lock
  proc_get_lock-Above =
      let test : ℕ → Bool = λ j. (k.pcb c).locks_got j == null in
      rw (==_ne c null ne) (elim (Option-cases (find_from test 0 max_lock)) [
        | inl e ↦ rw e (runs (slot_set-Noted k c none lock, λ p i room j h. refl))
        | inr (m, e) ↦
            rw (e, ==_ne c null ne)
              (runs (
                slot_set-Noted k c (some m) lock,
                λ p i room. slot_set-Above k m lock p i λ same.
                    let (r, le, lt, z) = room same in
                    let empty : test r ≡ true =
                      ground (arith, ap (λ a. (k.pcb a).locks_got r) same ∙ z) in
                    omega (arith, find_from-le test max_lock m r e empty),
              ))
      ])

  -- A note of the lock in the slot `i` of `p`, or one before, is what is struck out.
  pub proc_lose_lock-Above :
      Runs
        (λ _ k'.
          Noted k k'
          × ((p : Ptr) (i : ℕ)
              → (k.pcb p).locks_got i ≡ lock
              → i < max_lock
              → Above p i k k' × Room p i k'))
        (proc_lose_lock lock k)
  unfolding proc_lose_lock
  proc_lose_lock-Above =
      let test : ℕ → Bool = λ j. (k.pcb c).locks_got j == lock in
      let here : (p i : ℕ) → (k.pcb p).locks_got i ≡ lock → c ≡ p → test i ≡ true =
        λ p i got same. ground (arith, ap (λ a. (k.pcb a).locks_got i) same ∙ got) in
      rw (==_ne c null ne) (elim (Option-cases (find_from test 0 max_lock)) [
        | inl e ↦ rw e (
            runs (
              slot_set-Noted k c none null,
              λ p i got lt. (
                λ j h. refl,
                λ same. absurd (
                    ground (
                      arith,
                      here p i got same,
                      find_from-none test 0 max_lock i e (omega arith) lt,
                    )),
              ),
            ))
        | inr (m, e) ↦
            rw (e, ==_ne c null ne)
              (runs (
                slot_set-Noted k c (some m) null,
                λ p i got lt. (
                  slot_set-Above k m null p i
                      (λ same. find_from-le test max_lock m i e (here p i got same)),
                  λ same. (
                    m,
                    find_from-le test max_lock m i e (here p i got same),
                    omega (arith, (find_from-some test 0 max_lock m e).1),
                    ap
                          (λ a.
                            (put k.pcb c
                                (record (k.pcb c) { locks_got = put (k.pcb c).locks_got m null })
                                a).locks_got
                              m)
                          (sym same)
                        ∙ ground arith,
                  ),
                ),
              ))
      ])

module _ {k k' : Kernel} (n : Noted k k') where
  pub Noted-links : k'.links ≡ k.links
  Noted-links = ap (λ (x : Kernel). x.links) n.rest

  pub Noted-lock_status : k'.lock_status ≡ k.lock_status
  Noted-lock_status = ap (λ (x : Kernel). x.lock_status) n.rest

  pub Noted-current : k'.current_running ≡ k.current_running
  Noted-current = ap (λ (x : Kernel). x.current_running) n.rest

  pub Noted-Inv : {qs : Ptr → List Ptr} → Inv k qs → Inv k' qs
  Noted-Inv v =
      Inv-same k' v Noted-links
        λ a. (ap (λ (x : Pcb). x.in_queue) (n.fields a), ap (λ (x : Pcb). x.status) (n.fields a))

  pub Noted-Moves : Moves k k'
  Noted-Moves = record {
    rest =
        n.rest
        ∙ ap₂
            (λ (l : Links) (s : Ptr → LockStatus). record k {
              links = l;
              pcb = k'.pcb;
              lock_status = s;
            })
            (sym Noted-links) (sym Noted-lock_status);
    fields = λ a.
        n.fields a
        ∙ ap₂
            (λ (q : Ptr) (s : Status). record (k.pcb a) {
              in_queue = q;
              status = s;
              locks_got = (k'.pcb a).locks_got;
            })
            (sym (ap (λ (x : Pcb). x.in_queue) (n.fields a)))
            (sym (ap (λ (x : Pcb). x.status) (n.fields a)));
  }
