-- ===== src/Syscall.antt =====
-- include/sys/syscall.h, init_syscall of init/main.c and system_call_helper of
-- kernel/syscall/syscall.c: the numbers of the system calls and the table of their handlers. The
-- functions `open`, `write`, `read`, `close`, `seek` and `cat` of fs/fs.c are the handlers `file_open`
-- and so on.
use ucas_operating_system_la.Base.{ℕ, Option, none, some, List, [], ◌∷◌, put, ltb, if◌then◌else◌}
use ucas_operating_system_la.Base.Run.{Cmd, fault}

-- `NUM_SYSCALLS`: the length of the array `syscall`.
abbrev pub num_syscalls : ℕ
num_syscalls = 64

-- The names that `SYSCALL_…` defines.
pub data SyscallName : Type 0 where
  syscall_spawn syscall_exit syscall_sleep syscall_kill syscall_waitpid syscall_ps syscall_getpid
        syscall_yield syscall_write syscall_read syscall_cursor syscall_reflush syscall_serial_read
        syscall_serial_write syscall_read_shell_buff syscall_screen_clear syscall_mutex_lock_init
        syscall_mutex_lock_acquire syscall_mutex_lock_release syscall_condition_init
        syscall_condition_wait syscall_condition_signal syscall_condition_broadcast
        syscall_semaphore_init syscall_semaphore_up syscall_semaphore_down syscall_barrier_init
        syscall_barrier_wait syscall_binsem_op syscall_binsem_get syscall_mailbox_open
        syscall_mailbox_close syscall_mailbox_send syscall_mailbox_recv syscall_fs_mount
        syscall_fs_unmount syscall_fs_init syscall_fs_mkdir syscall_fs_rmdir syscall_fs_ls
        syscall_fs_cd syscall_fs_touch syscall_fs_sink syscall_fs_open syscall_fs_write
        syscall_fs_cat syscall_fs_read syscall_fs_close syscall_fs_info syscall_fs_find_file
        syscall_fs_find_dir syscall_fs_seek syscall_get_timer syscall_wait_recv_package
        syscall_net_recv syscall_net_send syscall_init_mac :
      SyscallName

unfoldable pub number : SyscallName → ℕ
number syscall_spawn = 0
number syscall_exit = 1
number syscall_sleep = 2
number syscall_kill = 3
number syscall_waitpid = 4
number syscall_ps = 5
number syscall_getpid = 6
number syscall_yield = 7
number syscall_write = 20
number syscall_read = 21
number syscall_cursor = 22
number syscall_reflush = 23
number syscall_serial_read = 24
number syscall_serial_write = 25
number syscall_read_shell_buff = 26
number syscall_screen_clear = 27
number syscall_mutex_lock_init = 30
number syscall_mutex_lock_acquire = 31
number syscall_mutex_lock_release = 32
number syscall_condition_init = 33
number syscall_condition_wait = 34
number syscall_condition_signal = 35
number syscall_condition_broadcast = 36
number syscall_semaphore_init = 37
number syscall_semaphore_up = 38
number syscall_semaphore_down = 39
number syscall_barrier_init = 40
number syscall_barrier_wait = 41
number syscall_binsem_op = 42
number syscall_binsem_get = 43
number syscall_mailbox_open = 44
number syscall_mailbox_close = 45
number syscall_mailbox_send = 46
number syscall_mailbox_recv = 47
number syscall_fs_mount = 48
number syscall_fs_unmount = 49
number syscall_fs_init = 50
number syscall_fs_mkdir = 51
number syscall_fs_rmdir = 52
number syscall_fs_ls = 53
number syscall_fs_cd = 54
number syscall_fs_touch = 55
number syscall_fs_sink = 56
number syscall_fs_open = 57
number syscall_fs_write = 58
number syscall_fs_cat = 59
number syscall_fs_read = 60
number syscall_fs_close = 61
number syscall_fs_info = 62
number syscall_fs_find_file = 63
number syscall_fs_find_dir = 64
number syscall_fs_seek = 65
number syscall_get_timer = 70
number syscall_wait_recv_package = 75
number syscall_net_recv = 76
number syscall_net_send = 77
number syscall_init_mac = 78

-- The functions of the kernel that handle system calls.
pub data Handler : Type 0 where
  do_spawn do_exit do_sleep do_kill do_waitpid do_process_show do_getpid do_scheduler screen_write
        screen_move_cursor screen_reflush screen_clear port_read_ch port_write_ch do_mutex_lock_init
        do_mutex_lock_acquire do_mutex_lock_release do_condition_init do_condition_wait
        do_condition_signal do_condition_broadcast do_barrier_init do_barrier_wait do_binsem_get
        do_binsem_op do_mbox_open do_mbox_close do_mbox_send do_mbox_recv get_timer init_file_system
        mount_file_system unmount_file_system print_file_system_info block_sink do_rmdir do_find
        do_find_dir do_cd do_mkdir do_touch do_ls file_open file_write file_read file_close
        file_seek file_cat :
      Handler

-- The array `syscall`, and the words behind it; an entry of the static array that is not assigned is
-- NULL.
abbrev pub Table : Type 0
Table = ℕ → Option Handler

-- The assignments of `init_syscall`, in order.
abbrev pub registrations : List (SyscallName × Handler)
registrations =
    (syscall_spawn, do_spawn)
    ∷ (syscall_exit, do_exit)
    ∷ (syscall_sleep, do_sleep)
    ∷ (syscall_kill, do_kill)
    ∷ (syscall_waitpid, do_waitpid)
    ∷ (syscall_ps, do_process_show)
    ∷ (syscall_getpid, do_getpid)
    ∷ (syscall_yield, do_scheduler)
    ∷ (syscall_write, screen_write)
    ∷ (syscall_cursor, screen_move_cursor)
    ∷ (syscall_reflush, screen_reflush)
    ∷ (syscall_screen_clear, screen_clear)
    ∷ (syscall_serial_read, port_read_ch)
    ∷ (syscall_serial_write, port_write_ch)
    ∷ (syscall_mutex_lock_init, do_mutex_lock_init)
    ∷ (syscall_mutex_lock_acquire, do_mutex_lock_acquire)
    ∷ (syscall_mutex_lock_release, do_mutex_lock_release)
    ∷ (syscall_condition_init, do_condition_init)
    ∷ (syscall_condition_wait, do_condition_wait)
    ∷ (syscall_condition_signal, do_condition_signal)
    ∷ (syscall_condition_broadcast, do_condition_broadcast)
    ∷ (syscall_barrier_init, do_barrier_init)
    ∷ (syscall_barrier_wait, do_barrier_wait)
    ∷ (syscall_binsem_get, do_binsem_get)
    ∷ (syscall_binsem_op, do_binsem_op)
    ∷ (syscall_mailbox_open, do_mbox_open)
    ∷ (syscall_mailbox_close, do_mbox_close)
    ∷ (syscall_mailbox_send, do_mbox_send)
    ∷ (syscall_mailbox_recv, do_mbox_recv)
    ∷ (syscall_get_timer, get_timer)
    ∷ (syscall_fs_init, init_file_system)
    ∷ (syscall_fs_mount, mount_file_system)
    ∷ (syscall_fs_unmount, unmount_file_system)
    ∷ (syscall_fs_info, print_file_system_info)
    ∷ (syscall_fs_sink, block_sink)
    ∷ (syscall_fs_rmdir, do_rmdir)
    ∷ (syscall_fs_find_file, do_find)
    ∷ (syscall_fs_find_dir, do_find_dir)
    ∷ (syscall_fs_cd, do_cd)
    ∷ (syscall_fs_mkdir, do_mkdir)
    ∷ (syscall_fs_touch, do_touch)
    ∷ (syscall_fs_ls, do_ls)
    ∷ (syscall_fs_open, file_open)
    ∷ (syscall_fs_write, file_write)
    ∷ (syscall_fs_read, file_read)
    ∷ (syscall_fs_close, file_close)
    ∷ (syscall_fs_seek, file_seek)
    ∷ (syscall_fs_cat, file_cat)
    ∷ []

abbrev pub register : List (SyscallName × Handler) → Table → Table
register [] t = t
register ((n, h) ∷ rest) t = register rest (put t (number n) (some h))

unfoldable pub init_syscall : Table → Table
unfolding number
init_syscall t = register registrations t

-- A call through NULL is a fault, and so is reading behind the array. `call` runs a handler with three arguments.
abbrev call_entry :
    {S : Type 0}
    → (Handler → (arg0 arg1 arg2 : ℕ) → Cmd S ℕ)
    → Option Handler
    → (arg0 arg1 arg2 : ℕ) → Cmd S ℕ
call_entry call none arg0 arg1 arg2 = fault
call_entry call (some h) arg0 arg1 arg2 = call h arg0 arg1 arg2

unfoldable pub system_call_helper :
    {S : Type 0}
    → (Handler → (arg0 arg1 arg2 : ℕ) → Cmd S ℕ)
    → Table
    → (fn arg0 arg1 arg2 : ℕ) → Cmd S ℕ
system_call_helper call syscall fn arg0 arg1 arg2 =
    if ltb fn num_syscalls then call_entry call (syscall fn) arg0 arg1 arg2 else fault
