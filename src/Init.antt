-- ===== src/Init.antt =====
-- init/main.c: what the kernel sets up before it runs the first process. The exception vectors, the
-- messages and the registers of the timer and the TLB are left out.
pub mod Start
use ucas_operating_system_la.Base.{ℕ, zero, suc, ◌+◌, List, [], ◌∷◌, put, fill}
use ucas_operating_system_la.Base.Run.{Cmd, pure, ◌>>=◌, ◌>>◌}
use ucas_operating_system_la.Queue.{Ptr, queue_init}
use ucas_operating_system_la.Memory.{Addr, Vm, page_ctrl_init, alloc_page, init_page_table}
use ucas_operating_system_la.Kernel.{Kernel, ready_queue, pcb_list, on_links}
use ucas_operating_system_la.Lock.{num_binsem, do_mutex_lock_init}
use ucas_operating_system_la.Process.{TaskInfo, do_spawn}
use ucas_operating_system_la.Sched.{modify}

abbrev pub page_size : ℕ
page_size = 0x1000

abbrev pub kernel_page_start : Addr
kernel_page_start = 0xffff_ffff_a200_0000

-- The page of zeroes, and the memory manager; the first argument is what pages hold, in words.
pub init_memory : (pages : Addr → ℕ → ℕ) → Vm → Addr × (Addr → ℕ → ℕ) × Vm
init_memory pages vm =
    let vm1 : Vm = record vm {
      page_ctrl_kernel = page_ctrl_init vm.page_ctrl_kernel kernel_page_start page_size;
      page_ctrl_user = page_ctrl_init vm.page_ctrl_user 0x2000_0000 page_size;
    } in
    let vm2 : Vm = init_page_table vm1 in
    let (zero_page, ctrl) = alloc_page vm2.page_ctrl_kernel in
    (
      zero_page,
      put pages zero_page (fill 1024 0 (pages zero_page)),
      record vm2 { page_ctrl_kernel = ctrl },
    )

pub init_pcb : Cmd Kernel (Unit {0})
init_pcb = do
  on_links (queue_init ready_queue)
  modify (λ k. record k { current_running = pcb_list 0 })

-- `n` semaphores from `lock` on, each of 24 bytes.
pub init_lock_from : (n : ℕ) → (lock : Ptr) → Cmd Kernel (Unit {0})
init_lock_from zero lock = pure tt
init_lock_from (suc n) lock = do do_mutex_lock_init lock; init_lock_from n (lock + 24)

pub init_lock : (binsem_list : Ptr) → Cmd Kernel (Unit {0})
unfolding init_lock_from
init_lock binsem_list = init_lock_from num_binsem binsem_list

pub start_tasks : (shell_tasks : List TaskInfo) → Cmd Kernel (Unit {0})
start_tasks [] = pure tt
start_tasks (task ∷ tasks) = do pid ← do_spawn task 0; start_tasks tasks
