-- ===== src/Kernel/Keeps.antt =====
-- What the moves between queues leave alone: of a process only `status` and `in_queue` change, and of
-- the rest of the kernel's state nothing.
use ucas_operating_system_la.Base.{ℕ, ◌≡◌, refl, sym, ap, ◌∙◌}
use mathlib.Core.Option.{Option}
use ucas_operating_system_la.Base.Run.{Cmd, Runs, runs, and_then}
use ucas_operating_system_la.Queue.{Ptr, Links}
use ucas_operating_system_la.Kernel.{Pcb, Kernel, LockStatus, with_links}

pub record Keeps (k k' : Kernel) : Type 0 where
  pub rest : k' ≡ record k { links = k'.links; pcb = k'.pcb }
  pub fields :
      (a : Ptr)
      → k'.pcb a ≡ record (k.pcb a) { in_queue = (k'.pcb a).in_queue; status = (k'.pcb a).status }

pub Keeps-refl : (k : Kernel) → Keeps k k
Keeps-refl k = record { rest = refl; fields = λ a. refl }

pub Keeps-trans : {k l m : Kernel} → Keeps k l → Keeps l m → Keeps k m
Keeps-trans {k} {l} {m} f g = record {
  rest = g.rest ∙ ap (λ (x : Kernel). record x { links = m.links; pcb = m.pcb }) f.rest;
  fields = λ a.
      g.fields a
      ∙ ap (λ (x : Pcb). record x { in_queue = (m.pcb a).in_queue; status = (m.pcb a).status })
          (f.fields a);
}

-- A command on the queues inside a longer run.
pub on_links-bind :
    {A B : Type 0} {P : A → Links → Type 0} {Q : B → Kernel → Type 0} (k : Kernel)
    {r : Option (A × Links)} (f : A → Cmd Kernel B)
    → Runs P r
    → ((a : A) (s : Links) → P a s → Runs Q (f a (record k { links = s })))
    → Runs Q (and_then (with_links r k) f)
on_links-bind k f (runs p) next = next _ _ p

pub on_links-run :
    {A : Type 0} {P : A → Links → Type 0} {Q : A → Kernel → Type 0} (k : Kernel)
    {r : Option (A × Links)}
    → Runs P r
    → ((a : A) (s : Links) → P a s → Q a (record k { links = s }))
    → Runs Q (with_links r k)
on_links-run k (runs p) next = runs (next _ _ p)

-- What giving a lock back leaves alone, besides: the status of the locks and the notes of who holds
-- them change too.
pub record Moves (k k' : Kernel) : Type 0 where
  pub rest : k' ≡ record k { links = k'.links; pcb = k'.pcb; lock_status = k'.lock_status }
  pub fields :
      (a : Ptr)
      → k'.pcb a ≡ record (k.pcb a) {
        in_queue = (k'.pcb a).in_queue;
        status = (k'.pcb a).status;
        locks_got = (k'.pcb a).locks_got;
      }

pub Moves-refl : (k : Kernel) → Moves k k
Moves-refl k = record { rest = refl; fields = λ a. refl }

pub Moves-trans : {k l m : Kernel} → Moves k l → Moves l m → Moves k m
Moves-trans {k} {l} {m} f g = record {
  rest =
      g.rest
      ∙ ap (λ (x : Kernel). record x { links = m.links; pcb = m.pcb; lock_status = m.lock_status })
          f.rest;
  fields = λ a.
      g.fields a
      ∙ ap
          (λ (x : Pcb). record x {
            in_queue = (m.pcb a).in_queue;
            status = (m.pcb a).status;
            locks_got = (m.pcb a).locks_got;
          })
          (f.fields a);
}

pub Keeps-Moves : {k k' : Kernel} → Keeps k k' → Moves k k'
Keeps-Moves {k} {k'} f = record {
  rest =
      f.rest
      ∙ ap (λ (x : Ptr → LockStatus). record k { links = k'.links; pcb = k'.pcb; lock_status = x })
          (ap (λ (x : Kernel). x.lock_status) (sym f.rest));
  fields = λ a.
      f.fields a
      ∙ ap
          (λ (x : ℕ → Ptr). record (k.pcb a) {
            in_queue = (k'.pcb a).in_queue;
            status = (k'.pcb a).status;
            locks_got = x;
          })
          (ap (λ (x : Pcb). x.locks_got) (sym (f.fields a)));
}

pub Keeps-lock_status : {k k' : Kernel} → Keeps k k' → k'.lock_status ≡ k.lock_status
Keeps-lock_status f = ap (λ (x : Kernel). x.lock_status) f.rest

pub Moves-current : {k k' : Kernel} → Moves k k' → k'.current_running ≡ k.current_running
Moves-current f = ap (λ (x : Kernel). x.current_running) f.rest
