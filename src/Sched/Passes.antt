-- ===== src/Sched/Passes.antt =====
-- What `scheduler` of kernel/sched/sched.c leaves alone.
use ucas_operating_system_la.Base.{==_iff, ◌≡◌, ◌∙◌, sym, arith, Bool-cases, inl, inr, ◌==◌}
use mathlib.Core.Path.{subst, ap₂}
use ucas_operating_system_la.Queue.{Ptr}
use ucas_operating_system_la.Kernel.{Kernel, Pcb}
use ucas_operating_system_la.Kernel.Keeps.{Keeps}
use ucas_operating_system_la.Sched.Switch.{Switched}

-- What the scheduler leaves besides the links: `y` is the current process, and of the processes only
-- `status` and `in_queue` have changed.
pub record Passes (k : Kernel) (y : Ptr) (k' : Kernel) : Type 0 where
  pub rest : k' ≡ record k {
    links = k'.links;
    pcb = k'.pcb;
    current_running = y;
    current_pid = (k.pcb y).pid;
    vm = record (k.vm) { current_pgd = (k.pcb y).page_table };
  }
  pub fields :
      (a : Ptr)
      → k'.pcb a ≡ record (k.pcb a) { in_queue = (k'.pcb a).in_queue; status = (k'.pcb a).status }

pub Switched-Passes : {k l m : Kernel} (y : Ptr) → Keeps k l → Switched l y m → Passes k y m
Switched-Passes {k} {l} {m} y f w = record {
  rest =
      w.rest
      ∙ ap₂
          (λ (x : Kernel) (p : Pcb). record x {
            links = m.links;
            pcb = m.pcb;
            current_running = y;
            current_pid = p.pid;
            vm = record (x.vm) { current_pgd = p.page_table };
          })
          f.rest (f.fields y);
  fields = λ a. elim (Bool-cases (a == y)) [
    | inl e ↦
        subst
          (λ z.
            m.pcb z ≡ record (k.pcb z) { in_queue = (m.pcb z).in_queue; status = (m.pcb z).status })
          (sym ((==_iff a y).0 e)) (ground (arith, w.process, f.fields y))
    | inr d ↦
        let same : m.pcb a ≡ l.pcb a = w.others a (λ z. ground arith) in
        ground (arith, same, f.fields a)
  ];
}
