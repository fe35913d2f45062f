-- ===== src/Tests/Demo.antt =====
-- A kernel in which process 2 runs, 3 is ready, 4 sleeps and is due, 5 and 6 wait for the lock at
-- address 100, and 7 waits at the barrier at address 200.
use ucas_operating_system_la.Base.{ℕ, false, List, [], ◌∷◌, arith, put}
use ucas_operating_system_la.Queue.{Ptr, Links}
use ucas_operating_system_la.Memory.{PageCtrl, Vm, not_written}
use ucas_operating_system_la.Kernel.{
  Kernel, Pcb, Status, task_none, task_ready, task_running, task_sleeping, task_blocked,
  kernel_process, unlocked, locked,
}
use ucas_operating_system_la.Kernel.Inv.{Inv}

abbrev pub demo_ctrl : PageCtrl
demo_ctrl = record {
  start_addr = 0x1000;
  next_page_addr = 0x4000;
  page_size = 0x1000;
  cnt_free_page = 1;
  free_pages = λ i. 0x2000;
}

abbrev pub demo_vm : Vm
demo_vm = record {
  page_ctrl_kernel = demo_ctrl;
  page_ctrl_user = demo_ctrl;
  page_ctrl_pgd = demo_ctrl;
  page_ctrl_pt = demo_ctrl;
  current_pgd = 0x1000;
  global_empty_pt = 0x3000;
  pgd = λ a i. 0x3000;
  pt = λ a i. 0;
  cp0_entryhi = 0;
  cp0_entrylo0 = 0;
  cp0_entrylo1 = 0;
  tlb = not_written;
}

abbrev pub demo_links : Links
demo_links = record {
  prev = put (λ a. 0) 6 5;
  next = put (λ a. 0) 5 6;
  head = put (put (put (put (λ a. 0) 1 3) 2 4) 108 5) 208 7;
  tail = put (put (put (put (λ a. 0) 1 3) 2 4) 108 6) 208 7;
}

-- A process with its status, its queue and its identifier.
abbrev pub demo_process : Status → Ptr → ℕ → Pcb
demo_process s q id = record {
  kernel_sp = 0;
  user_sp = 0;
  page_table = 0x1000;
  in_queue = q;
  priority = 0;
  last_run = 0;
  name = [];
  pid = id;
  task_type = kernel_process;
  status = s;
  sleep_until = 1;
  waitpid = 0;
  locks_got = λ i. 0;
  cursor_x = 0;
  cursor_y = 0;
}

abbrev pub demo_pcb : Ptr → Pcb
demo_pcb =
    put
      (put
        (put
          (put
            (put (put (λ a. demo_process task_none 0 0) 2 (demo_process task_running 0 12)) 3
              (demo_process task_ready 1 13))
            4 (demo_process task_sleeping 2 14))
          5 (demo_process task_blocked 108 15))
        6 (demo_process task_blocked 108 16))
      7 (demo_process task_blocked 208 17)

abbrev pub demo : Kernel
demo = record {
  links = demo_links;
  pcb = demo_pcb;
  current_running = 2;
  current_pid = 12;
  next_pid = 18;
  kernel_stack_used = λ i. false;
  lock_status = put (λ a. unlocked) 100 locked;
  barrier_goal = λ a. 2;
  barrier_now = λ a. 1;
  time_elapsed = 600000;
  last_cp0_count = 4_294_967_290;
  screen_cursor_x = 3;
  screen_cursor_y = 4;
  vm = demo_vm;
}

abbrev pub demo_queues : Ptr → List Ptr
demo_queues = put (put (put (put (λ q. []) 1 (3 ∷ [])) 2 (4 ∷ [])) 108 (5 ∷ 6 ∷ [])) 208 (7 ∷ [])

pub demo-Inv : Inv demo demo_queues
demo-Inv = record {
  queues = λ q h. record { valid = h; links = ground arith };
  member = λ q x h i. ground arith;
  status = λ q x h i. ground arith;
  in_table = λ q x h i. ground arith;
}
