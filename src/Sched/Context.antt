-- ===== src/Sched/Context.antt =====
-- `do_scheduler` of arch/mips/kernel/entry.S: the scheduler between saving and restoring the cursor.
use ucas_operating_system_la.Base.{
  ℕ, has, true, Option, ◌≤◌, ◌≡◌, ◌≢◌, refl, ap, ◌∙◌, fun_ext, List, [], ◌∷◌, ◌++◌, arith, put,
  ==_ne,
}
use mathlib.Core.Path.{subst, ap₂}
use ucas_operating_system_la.Memory.{Addr}
use ucas_operating_system_la.Sched.Passes.{Passes}
use ucas_operating_system_la.Time.{get_timer}
use ucas_operating_system_la.Base.Run
use ucas_operating_system_la.Base.Run.{Runs, runs}
use ucas_operating_system_la.Queue.{Ptr, null, Links}
use ucas_operating_system_la.Kernel.{
  Kernel, Pcb, task_running, task_blocked, num_max_task, sleep_queue, ready_queue,
}
use ucas_operating_system_la.Kernel.Inv.{Inv, Inv-same}
use ucas_operating_system_la.Wakeup.Loop.{select}
use ucas_operating_system_la.Sched.{scheduler, save_cursor, restore_cursor, do_scheduler}
use ucas_operating_system_la.Sched.Wake.{due, woken}
use ucas_operating_system_la.Sched.Asleep.{scheduler-asleep}
use ucas_operating_system_la.Sched.Order.{
  candidates, rest_ready, scheduler-blocked, scheduler-round_robin,
}

-- The state after `save_cursor`.
abbrev pub saved : Kernel → Kernel
saved k = record k {
  pcb = put k.pcb k.current_running (record (k.pcb k.current_running) {
    cursor_x = k.screen_cursor_x;
    cursor_y = k.screen_cursor_y;
  });
}

-- What `do_scheduler` leaves in the state `k`: `y` runs, with the cursor on the screen that it had
-- before, and `ls` are the queues. Of the processes only the cursor of the old one, `status` and
-- `in_queue` have changed, and of the rest of the kernel nothing but the current process.
pub record SwitchedTo (k : Kernel) (y : Ptr) (ls : Ptr → List Ptr) (k' : Kernel) : Type 0 where
  pub inv : Inv k' ls
  pub current : k'.current_running ≡ y
  pub running : (k'.pcb y).status ≡ task_running
  pub rest : k' ≡ record k {
    links = k'.links;
    pcb = k'.pcb;
    current_running = y;
    current_pid = (k.pcb y).pid;
    screen_cursor_x = ((saved k).pcb y).cursor_x;
    screen_cursor_y = ((saved k).pcb y).cursor_y;
    vm = record (k.vm) { current_pgd = (k.pcb y).page_table };
  }
  pub fields :
      (a : Ptr)
      → k'.pcb a
        ≡ record ((saved k).pcb a) { in_queue = (k'.pcb a).in_queue; status = (k'.pcb a).status }

-- The state after `restore_cursor`.
SwitchedTo-rest :
    (k k1 : Kernel) (y : Ptr)
    → k1.current_running ≡ y
    → Passes (saved k) y k1
    → record k1 {
      screen_cursor_x = (k1.pcb k1.current_running).cursor_x;
      screen_cursor_y = (k1.pcb k1.current_running).cursor_y;
    }
      ≡ record k {
        links = k1.links;
        pcb = k1.pcb;
        current_running = y;
        current_pid = (k.pcb y).pid;
        screen_cursor_x = ((saved k).pcb y).cursor_x;
        screen_cursor_y = ((saved k).pcb y).cursor_y;
        vm = record (k.vm) { current_pgd = (k.pcb y).page_table };
      }
SwitchedTo-rest k k1 y c w =
    let same : k1.pcb k1.current_running
        ≡ record ((saved k).pcb y) { in_queue = (k1.pcb y).in_queue; status = (k1.pcb y).status } =
      ap (λ (a : Ptr). k1.pcb a) c ∙ w.fields y in
    let pid : ((saved k).pcb y).pid ≡ (k.pcb y).pid = ground arith in
    let table : ((saved k).pcb y).page_table ≡ (k.pcb y).page_table = ground arith in
    ap₂
      (λ (x : Kernel) (p : Pcb). record x {
        screen_cursor_x = p.cursor_x;
        screen_cursor_y = p.cursor_y;
      })
      w.rest same
    ∙ ap₂
        (λ (n : ℕ) (g : Addr). record k {
          links = k1.links;
          pcb = k1.pcb;
          current_running = y;
          current_pid = n;
          screen_cursor_x = ((saved k).pcb y).cursor_x;
          screen_cursor_y = ((saved k).pcb y).cursor_y;
          vm = record (k.vm) { current_pgd = g };
        })
        pid table

around :
    (k : Kernel) (y : Ptr) (ls : Ptr → List Ptr)
    → k.current_running ≢ null
    → Runs
        (λ _ k'.
          Inv k' ls
          × (k'.current_running ≡ y)
          × (y ≢ null)
          × ((k'.pcb y).status ≡ task_running)
          × Passes (saved k) y k')
        (scheduler (saved k))
    → Runs (λ _. SwitchedTo k y ls) (do_scheduler k)
unfolding do_scheduler save_cursor restore_cursor
around k y ls ne run = rw (==_ne k.current_running null ne) (
    Run.bind run λ _ k1 (v1, c, yne, s, w). rw (==_ne k1.current_running null (rw c yne)) (
      runs (record {
        inv = Inv-same _ v1 refl (λ a. (refl, refl));
        current = c;
        running = s;
        rest = SwitchedTo-rest k k1 y c w;
        fields = w.fields;
      })))

-- Where the links stood before makes no difference.
SwitchedTo-links :
    {k k' : Kernel} {y : Ptr} {ls : Ptr → List Ptr} (s : Links)
    → SwitchedTo (record k { links = s }) y ls k'
    → SwitchedTo k y ls k'
SwitchedTo-links s w = record {
  inv = w.inv;
  current = w.current;
  running = w.running;
  rest = w.rest;
  fields = w.fields;
}

pub SwitchedTo-start :
    {A : Type 0} {r : Option (A × Kernel)} {k k1 : Kernel} {y : Ptr} {ls : Ptr → List Ptr}
    (s : Links)
    → k1 ≡ record k { links = s }
    → Runs (λ _. SwitchedTo k1 y ls) r
    → Runs (λ _. SwitchedTo k y ls) r
SwitchedTo-start {y} {ls} s e run =
    Run.mono run λ _ k' w. SwitchedTo-links s (subst (λ x. SwitchedTo x y ls k') e w)

due-saved : (k : Kernel) → due (saved k) ≡ due k
unfolding get_timer
due-saved k = fun_ext λ a. ground arith

-- The cursor plays no part in who is due.
rest_ready-saved :
    (k : Kernel) (qs : Ptr → List Ptr) (ys : List Ptr)
    → rest_ready (saved k) qs ys ≡ rest_ready k qs ys
rest_ready-saved k qs ys = ap (λ t. put (woken t sleep_queue qs) ready_queue ys) (due-saved k)

candidates-saved : (k : Kernel) (qs : Ptr → List Ptr) → candidates (saved k) qs ≡ candidates k qs
candidates-saved k qs = ap (λ t. qs ready_queue ++ select t (qs sleep_queue)) (due-saved k)

module _ (k : Kernel) (qs : Ptr → List Ptr) (v : Inv k qs) (ne : k.current_running ≢ null)
    (le : k.current_running ≤ num_max_task) (y : Ptr) (ys : List Ptr) where
  saved-Inv : Inv (saved k) qs
  saved-Inv = Inv-same (saved k) v refl (λ a. ground arith)

  pub do_scheduler-blocked :
      (k.pcb k.current_running).status ≡ task_blocked
      → candidates k qs ≡ y ∷ ys
      → Runs (λ _. SwitchedTo k y (rest_ready k qs ys)) (do_scheduler k)
  do_scheduler-blocked blocked e =
      subst (λ l. Runs (λ _. SwitchedTo k y l) (do_scheduler k)) (rest_ready-saved k qs ys)
        (around k y (rest_ready (saved k) qs ys) ne (
          scheduler-blocked (saved k) qs saved-Inv ne le y ys (ground arith)
            (candidates-saved k qs ∙ e)))

  -- When the queues are consistent and the process that runs, which is in the table and is not
  -- process 0, gives up the processor, do_scheduler ends, saves the screen's cursor with the old
  -- process, lets the first of the processes that are ready or due run with the cursor that this one
  -- had saved before on the screen (the screen's own if it is the old one), and leaves the others
  -- ready in order with the old process behind them; the old process runs on if there is no other.
  -- Else only links, the status and the queue of processes, and the current process, its identifier
  -- and its page directory change.
  pub do_scheduler-round_robin :
      (k.pcb k.current_running).status ≡ task_running
      → (k.pcb k.current_running).pid ≢ 0
      → candidates k qs ++ k.current_running ∷ [] ≡ y ∷ ys
      → Runs (λ _. SwitchedTo k y (rest_ready k qs ys)) (do_scheduler k)
  do_scheduler-round_robin run np e =
      subst (λ l. Runs (λ _. SwitchedTo k y l) (do_scheduler k)) (rest_ready-saved k qs ys)
        (around k y (rest_ready (saved k) qs ys) ne (
          scheduler-round_robin (saved k) qs saved-Inv ne le y ys (ground arith) (ground arith)
            (ap (λ l. l ++ k.current_running ∷ []) (candidates-saved k qs) ∙ e)))

  pub do_scheduler-asleep :
      has k.current_running (qs sleep_queue) ≡ true
      → candidates k qs ≡ y ∷ ys
      → Runs (λ _. SwitchedTo k y (rest_ready k qs ys)) (do_scheduler k)
  do_scheduler-asleep asleep e =
      subst (λ l. Runs (λ _. SwitchedTo k y l) (do_scheduler k)) (rest_ready-saved k qs ys)
        (around k y (rest_ready (saved k) qs ys) ne
          (scheduler-asleep (saved k) qs y ys saved-Inv ne asleep (candidates-saved k qs ∙ e)))
