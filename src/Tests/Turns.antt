-- ===== src/Tests/Turns.antt =====
-- A kernel in which process 2 runs and the processes 3 and 4 are ready.
use ucas_operating_system_la.Base.{List, [], ◌∷◌, refl, arith, put}
use ucas_operating_system_la.Base.Run.{Runs}
use ucas_operating_system_la.Queue.{Ptr}
use ucas_operating_system_la.Kernel.{Kernel, task_none, task_ready, task_running}
use ucas_operating_system_la.Kernel.Inv.{Inv}
use ucas_operating_system_la.Sched.Turns.{HasTurn, turns, turns-HasTurn}
use ucas_operating_system_la.Tests.Demo.{demo, demo_process}

abbrev two_ready : Kernel
two_ready = record demo {
  links = record {
    prev = put (λ a. 0) 4 3;
    next = put (λ a. 0) 3 4;
    head = put (λ a. 0) 1 3;
    tail = put (λ a. 0) 1 4;
  };
  pcb =
      put
        (put (put (λ a. demo_process task_none 0 0) 2 (demo_process task_running 0 12)) 3
          (demo_process task_ready 1 13))
        4 (demo_process task_ready 1 14);
}

abbrev two_queues : Ptr → List Ptr
two_queues = put (λ q. []) 1 (3 ∷ 4 ∷ [])

two_ready-Inv : Inv two_ready two_queues
two_ready-Inv = record {
  queues = λ q h. record { valid = h; links = ground arith };
  member = λ q x h i. ground arith;
  status = λ q x h i. ground arith;
  in_table = λ q x h i. ground arith;
}

-- Process 4 runs after two calls.
turns-HasTurn_example : Runs (λ _. HasTurn 4) (turns (λ i k. k) 2 two_ready)
turns-HasTurn_example =
    turns-HasTurn (λ i k. k) (λ i k l v. v) 4 (3 ∷ []) two_ready
      (two_queues, [], two_ready-Inv, refl, omega arith, omega arith)
