-- ===== src/Kernel/Grown.antt =====
-- What waking processes does to the queues.
use ucas_operating_system_la.Base.{
  ◌≡◌, ◌≢◌, refl, sym, ap, ◌∙◌, false, List, [], ◌++◌, arith, has, has-append, put,
}
use mathlib.Core.List.{append-nil, append_assoc}
use ucas_operating_system_la.Queue.{Ptr, null}
use ucas_operating_system_la.Kernel.{ready_queue}
use ucas_operating_system_la.Kernel.Inv.{Free}

-- The ready queue grows at its end, and a process in no
-- queue stays out.
pub record Grown (qs qs' : Ptr → List Ptr) : Type 0 where
  pub ready : (more : List Ptr) × (qs' ready_queue ≡ qs ready_queue ++ more)
  pub free : (x : Ptr) → Free qs x → Free qs' x

pub Grown-refl : (qs : Ptr → List Ptr) → Grown qs qs
Grown-refl qs = record { ready = ([], sym (append-nil (qs ready_queue))); free = λ x h. h }

pub Grown-trans : {qs rs ts : Ptr → List Ptr} → Grown qs rs → Grown rs ts → Grown qs ts
Grown-trans {qs} f g = record {
  ready = (
    f.ready.0 ++ g.ready.0,
    g.ready.1
        ∙ ap (λ l. l ++ g.ready.0) f.ready.1
        ∙ append_assoc (qs ready_queue) f.ready.0 g.ready.0,
  );
  free = λ x h. g.free x (f.free x h);
}

-- The queue `q` loses processes, which the ready queue gains.
pub Grown-move :
    (qs : Ptr → List Ptr) (q : Ptr) (left gone : List Ptr)
    → q ≢ null
    → q ≢ ready_queue
    → ((x : Ptr) → has x (qs q) ≡ false → (has x left ≡ false) × (has x gone ≡ false))
    → Grown qs (put (put qs q left) ready_queue (qs ready_queue ++ gone))
Grown-move qs q left gone hq nr part = record {
  ready = (gone, refl);
  free = λ x free r h. ground (
    arith,
    part x (free q hq),
    free r h,
    free ready_queue (omega arith),
    has-append x (qs ready_queue) gone,
  );
}
