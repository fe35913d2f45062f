-- ===== src/Irq/Wrapper.antt =====
-- kernel/syscall/syscall.c: the functions through which a user program makes system calls. Each makes
-- its call at an address `pc`; `cause` is the CP0 register of the exception. Arguments are passed as
-- 64-bit values. A function that has no `return` gives nothing, whatever its declared type is.
use ucas_operating_system_la.Base.{ℕ}
use ucas_operating_system_la.Base.Run.{Cmd, pure, ◌>>=◌}
use ucas_operating_system_la.Syscall.{SyscallName, number}
use ucas_operating_system_la.Irq.{Os, Machine, invoke_syscall}

-- `IGNORE`
abbrev pub ignore : ℕ
ignore = 0

module _ {S : Type 0} (os : Os S) (cause pc : ℕ) where
  -- A call whose result is dropped.
  abbrev perform : (name : SyscallName) (arg0 arg1 arg2 : ℕ) → Cmd (Machine S) (Unit {0})
  perform name arg0 arg1 arg2 =
      invoke_syscall os cause pc (number name) arg0 arg1 arg2 >>= λ r. pure tt

  abbrev request : (name : SyscallName) (arg0 arg1 arg2 : ℕ) → Cmd (Machine S) ℕ
  request name arg0 arg1 arg2 = invoke_syscall os cause pc (number name) arg0 arg1 arg2

  pub sys_spawn : (info argc argv : ℕ) → Cmd (Machine S) ℕ
  sys_spawn info argc argv = request SyscallName.syscall_spawn info argc argv

  pub sys_exit : Cmd (Machine S) (Unit {0})
  sys_exit = perform SyscallName.syscall_exit ignore ignore ignore

  pub sys_sleep : (time : ℕ) → Cmd (Machine S) (Unit {0})
  sys_sleep time = perform SyscallName.syscall_sleep time ignore ignore

  pub sys_kill : (pid : ℕ) → Cmd (Machine S) ℕ
  sys_kill pid = request SyscallName.syscall_kill pid ignore ignore

  pub sys_waitpid : (pid : ℕ) → Cmd (Machine S) (Unit {0})
  sys_waitpid pid = perform SyscallName.syscall_waitpid pid ignore ignore

  pub sys_getpid : Cmd (Machine S) ℕ
  sys_getpid = request SyscallName.syscall_getpid ignore ignore ignore

  pub sys_yield : Cmd (Machine S) (Unit {0})
  sys_yield = perform SyscallName.syscall_yield ignore ignore ignore

  pub sys_write : (buff : ℕ) → Cmd (Machine S) (Unit {0})
  sys_write buff = perform SyscallName.syscall_write buff ignore ignore

  pub sys_reflush : Cmd (Machine S) (Unit {0})
  sys_reflush = perform SyscallName.syscall_reflush ignore ignore ignore

  pub sys_serial_read : Cmd (Machine S) (Unit {0})
  sys_serial_read = perform SyscallName.syscall_serial_read ignore ignore ignore

  pub sys_serial_write : (ch : ℕ) → Cmd (Machine S) (Unit {0})
  sys_serial_write ch = perform SyscallName.syscall_serial_write ch ignore ignore

  pub sys_move_cursor : (x y : ℕ) → Cmd (Machine S) (Unit {0})
  sys_move_cursor x y = perform SyscallName.syscall_cursor x y ignore

  pub mutex_lock_init : (lock : ℕ) → Cmd (Machine S) (Unit {0})
  mutex_lock_init lock = perform SyscallName.syscall_mutex_lock_init lock ignore ignore

  pub mutex_lock_acquire : (lock : ℕ) → Cmd (Machine S) (Unit {0})
  mutex_lock_acquire lock = perform SyscallName.syscall_mutex_lock_acquire lock ignore ignore

  pub mutex_lock_release : (lock : ℕ) → Cmd (Machine S) (Unit {0})
  mutex_lock_release lock = perform SyscallName.syscall_mutex_lock_release lock ignore ignore

  pub condition_init : (condition : ℕ) → Cmd (Machine S) (Unit {0})
  condition_init condition = perform SyscallName.syscall_condition_init condition ignore ignore

  pub condition_wait : (lock condition : ℕ) → Cmd (Machine S) (Unit {0})
  condition_wait lock condition = perform SyscallName.syscall_condition_wait lock condition ignore

  pub condition_signal : (condition : ℕ) → Cmd (Machine S) (Unit {0})
  condition_signal condition = perform SyscallName.syscall_condition_signal condition ignore ignore

  pub condition_broadcast : (condition : ℕ) → Cmd (Machine S) (Unit {0})
  condition_broadcast condition =
      perform SyscallName.syscall_condition_broadcast condition ignore ignore

  pub barrier_init : (barrier goal : ℕ) → Cmd (Machine S) (Unit {0})
  barrier_init barrier goal = perform SyscallName.syscall_barrier_init barrier goal ignore

  pub barrier_wait : (barrier : ℕ) → Cmd (Machine S) (Unit {0})
  barrier_wait barrier = perform SyscallName.syscall_barrier_wait barrier ignore ignore

  pub binsem_get : (key : ℕ) → Cmd (Machine S) ℕ
  binsem_get key = request SyscallName.syscall_binsem_get key ignore ignore

  pub binsem_op : (binsem_id op : ℕ) → Cmd (Machine S) (Unit {0})
  binsem_op binsem_id op = perform SyscallName.syscall_binsem_op binsem_id op ignore

  pub mbox_open : (name : ℕ) → Cmd (Machine S) ℕ
  mbox_open name = request SyscallName.syscall_mailbox_open name ignore ignore

  pub mbox_close : (mailbox : ℕ) → Cmd (Machine S) (Unit {0})
  mbox_close mailbox = perform SyscallName.syscall_mailbox_close mailbox ignore ignore

  pub mbox_send : (mailbox msg msg_length : ℕ) → Cmd (Machine S) (Unit {0})
  mbox_send mailbox msg msg_length = perform SyscallName.syscall_mailbox_send mailbox msg msg_length

  pub mbox_recv : (mailbox msg msg_length : ℕ) → Cmd (Machine S) (Unit {0})
  mbox_recv mailbox msg msg_length = perform SyscallName.syscall_mailbox_recv mailbox msg msg_length

  pub sys_process_show : Cmd (Machine S) (Unit {0})
  sys_process_show = perform SyscallName.syscall_ps ignore ignore ignore

  pub sys_screen_clear : (line1 line2 : ℕ) → Cmd (Machine S) (Unit {0})
  sys_screen_clear line1 line2 = perform SyscallName.syscall_screen_clear line1 line2 ignore

  pub sys_init_file_system : (part_id : ℕ) → Cmd (Machine S) (Unit {0})
  sys_init_file_system part_id = perform SyscallName.syscall_fs_init part_id ignore ignore

  pub sys_mount_file_system : (part_id : ℕ) → Cmd (Machine S) (Unit {0})
  sys_mount_file_system part_id = perform SyscallName.syscall_fs_mount part_id ignore ignore

  pub sys_unmount_file_system : Cmd (Machine S) (Unit {0})
  sys_unmount_file_system = perform SyscallName.syscall_fs_unmount ignore ignore ignore

  pub sys_print_file_system_info : Cmd (Machine S) (Unit {0})
  sys_print_file_system_info = perform SyscallName.syscall_fs_info ignore ignore ignore

  pub sys_sink : Cmd (Machine S) (Unit {0})
  sys_sink = perform SyscallName.syscall_fs_sink ignore ignore ignore

  pub sys_rmdir : (inode_id : ℕ) → Cmd (Machine S) (Unit {0})
  sys_rmdir inode_id = perform SyscallName.syscall_fs_rmdir inode_id ignore ignore

  pub sys_find : (test_file_name : ℕ) → Cmd (Machine S) (Unit {0})
  sys_find test_file_name = perform SyscallName.syscall_fs_find_file test_file_name ignore ignore

  pub sys_find_dir : (test_file_name : ℕ) → Cmd (Machine S) (Unit {0})
  sys_find_dir test_file_name = perform SyscallName.syscall_fs_find_dir test_file_name ignore ignore

  pub sys_cd : (test_file_name : ℕ) → Cmd (Machine S) (Unit {0})
  sys_cd test_file_name = perform SyscallName.syscall_fs_cd test_file_name ignore ignore

  pub sys_mkdir : (fa_inode_id name : ℕ) → Cmd (Machine S) (Unit {0})
  sys_mkdir fa_inode_id name = perform SyscallName.syscall_fs_mkdir fa_inode_id name ignore

  pub sys_touch : (fa_inode_id name : ℕ) → Cmd (Machine S) (Unit {0})
  sys_touch fa_inode_id name = perform SyscallName.syscall_fs_touch fa_inode_id name ignore

  pub sys_ls : (inode_id : ℕ) → Cmd (Machine S) (Unit {0})
  sys_ls inode_id = perform SyscallName.syscall_fs_ls inode_id ignore ignore

  pub sys_fopen : (name access : ℕ) → Cmd (Machine S) (Unit {0})
  sys_fopen name access = perform SyscallName.syscall_fs_open name access ignore

  pub sys_fwrite : (fd buff size : ℕ) → Cmd (Machine S) (Unit {0})
  sys_fwrite fd buff size = perform SyscallName.syscall_fs_write fd buff size

  pub sys_fread : (fd buff size : ℕ) → Cmd (Machine S) (Unit {0})
  sys_fread fd buff size = perform SyscallName.syscall_fs_read fd buff size

  pub sys_fseek : (fd offset : ℕ) → Cmd (Machine S) (Unit {0})
  sys_fseek fd offset = perform SyscallName.syscall_fs_seek fd offset ignore

  pub sys_fclose : (fd : ℕ) → Cmd (Machine S) (Unit {0})
  sys_fclose fd = perform SyscallName.syscall_fs_close fd ignore ignore

  pub sys_cat : (name : ℕ) → Cmd (Machine S) (Unit {0})
  sys_cat name = perform SyscallName.syscall_fs_cat name ignore ignore

  pub sys_get_timer : Cmd (Machine S) (Unit {0})
  sys_get_timer = perform SyscallName.syscall_get_timer ignore ignore ignore

  -- The bodies are empty.
  pub semaphore_init : (s val : ℕ) → Cmd (Machine S) (Unit {0})
  semaphore_init s val = pure tt

  pub semaphore_up : (s : ℕ) → Cmd (Machine S) (Unit {0})
  semaphore_up s = pure tt

  pub semaphore_down : (s : ℕ) → Cmd (Machine S) (Unit {0})
  semaphore_down s = pure tt
