-- ===== src/Mailbox.antt =====
-- libs/mailbox.c: mailboxes, which are rings of 64 bytes with a lock and two conditions. The name of a
-- mailbox is the list of its characters: fewer than 32, each below 128. A message is the bytes at
-- its address, and its length is not negative. `do_mbox_send` and `do_mbox_recv` are cut where
-- another process is switched to: `mbox_send_wait` and `mbox_recv_wait` are one pass of the loop, which
-- either waits or completes the operation.
pub mod Ring
pub mod Open
use ucas_operating_system_la.Base.{
  ℕ, zero, suc, ◌+◌, ◌-◌, ◌*◌, ◌%◌, Bool, true, false, ◌&&◌, Option, none, some, List, [], ◌∷◌,
  ◌==◌, ltb, if◌then◌else◌, put,
}
use ucas_operating_system_la.Base.Run.{Cmd, pure, ◌>>=◌, ◌>>◌}
use ucas_operating_system_la.Queue.{Ptr, null}
use ucas_operating_system_la.Kernel.{Kernel}
use ucas_operating_system_la.Lock.{do_mutex_lock_init, do_mutex_lock_release}
use ucas_operating_system_la.Mutex.{do_mutex_lock_acquire}
use ucas_operating_system_la.Cond.{do_condition_init, do_condition_wait, do_condition_broadcast}

abbrev pub max_mbox_length : ℕ
max_mbox_length = 64

abbrev pub max_num_box : ℕ
max_num_box = 32

-- `mailbox_t`, less its lock and its conditions, which the kernel's state has.
pub record Mailbox : Type 0 where
  pub name : List ℕ
  pub buff : ℕ → ℕ
  pub user_cnt : ℕ
  pub buff_used : ℕ
  pub start : ℕ
  pub end : ℕ

-- The kernel with the array of mailboxes at the address `mboxs`.
pub record System : Type 0 where
  pub kernel : Kernel
  pub mboxs : Ptr
  pub boxes : ℕ → Mailbox

-- `&mailbox->lock`, `&mailbox->not_full` and `&mailbox->not_empty`, in structures of 216 bytes.
abbrev pub mbox_lock : System → ℕ → Ptr
mbox_lock s id = s.mboxs + 216 * id + 112

abbrev pub not_full : System → ℕ → Ptr
not_full s id = s.mboxs + 216 * id + 136

abbrev pub not_empty : System → ℕ → Ptr
not_empty s id = s.mboxs + 216 * id + 176

-- A command of the kernel.
abbrev with_kernel : {A : Type 0} → Option (A × Kernel) → System → Option (A × System)
with_kernel none s = none
with_kernel (some (a, k)) s = some (a, record s { kernel = k })

abbrev pub on_kernel : {A : Type 0} → (System → Cmd Kernel A) → Cmd System A
on_kernel m s = with_kernel (m s s.kernel) s

abbrev pub get_box : ℕ → Cmd System Mailbox
get_box id s = some (s.boxes id, s)

abbrev pub set_box : ℕ → Mailbox → Cmd System (Unit {0})
set_box id b s = some (tt, record s { boxes = put s.boxes id b })

-- The fields that `init_mbox` sets.
abbrev pub fresh_box : List ℕ → Mailbox → Mailbox
fresh_box name b = record b { name = name; user_cnt = 0; buff_used = 0; start = 0; end = 0 }

pub init_mbox : ℕ → List ℕ → Cmd System (Unit {0})
init_mbox id name = do
  b ← get_box id
  set_box id (fresh_box name b)
  on_kernel (λ s. do_mutex_lock_init (mbox_lock s id))
  on_kernel (λ s. do_condition_init (not_full s id))
  on_kernel (λ s. do_condition_init (not_empty s id))

abbrev pub same_name : List ℕ → List ℕ → Bool
same_name [] [] = true
same_name (c ∷ cs) (d ∷ ds) = c == d && same_name cs ds
same_name _ _ = false

pub hash_from : List ℕ → ℕ → ℕ
hash_from [] hash = hash
hash_from (c ∷ cs) hash = hash_from cs ((hash + c) % max_num_box)

-- What the search for a mailbox finds: a free one, one that has the name, or none.
pub data Found : Type 0 where
  free_box named_box : ℕ → Found
  no_box : Found

-- The search from the `i`-th place after `hash`, for `n` more places.
pub find_box : ℕ → (ℕ → Mailbox) → List ℕ → (hash i : ℕ) → Found
find_box zero boxes name hash i = no_box
find_box (suc n) boxes name hash i =
    let mbox_id : ℕ = (i + hash) % max_num_box in
    let rest = find_box n boxes name hash (suc i) in
    if (boxes mbox_id).user_cnt == 0
    then free_box mbox_id
    else if same_name name (boxes mbox_id).name
    then named_box mbox_id
    else rest

abbrev add_user : ℕ → Cmd System (Option ℕ)
add_user id = do b ← get_box id; set_box id (record b { user_cnt = b.user_cnt + 1 }); pure (some id)

abbrev open_found : List ℕ → Found → Cmd System (Option ℕ)
unfolding init_mbox
open_found name (free_box id) = init_mbox id name >> add_user id
open_found name (named_box id) = add_user id
open_found name no_box = pure none

-- The number of the mailbox that is opened, none for NULL.
pub do_mbox_open : List ℕ → Cmd System (Option ℕ)
unfolding init_mbox find_box hash_from
do_mbox_open name s = open_found name (find_box max_num_box s.boxes name (hash_from name 0) 0) s

pub do_mbox_close : ℕ → Cmd System (Unit {0})
do_mbox_close id = do
  b ← get_box id
  if ltb 0 b.user_cnt then set_box id (record b { user_cnt = b.user_cnt - 1 }) else pure tt

-- `for (i = 0; i < n; i++) dst[(end + i) % MAX_MBOX_LENGTH] = src[i];`
pub put_bytes : ℕ → (src : ℕ → ℕ) → (end : ℕ) → (ℕ → ℕ) → ℕ → ℕ
put_bytes zero src end dst = dst
put_bytes (suc n) src end dst = put (put_bytes n src end dst) ((end + n) % max_mbox_length) (src n)

-- `for (i = 0; i < n; i++) dst[i] = src[(start + i) % MAX_MBOX_LENGTH];`
pub take_bytes : ℕ → (src : ℕ → ℕ) → (start : ℕ) → (ℕ → ℕ) → ℕ → ℕ
take_bytes zero src start dst = dst
take_bytes (suc n) src start dst =
    put (take_bytes n src start dst) n (src ((start + n) % max_mbox_length))

-- What `do_mbox_send` does to the mailbox once there is room, and `do_mbox_recv` once there are enough
-- bytes.
pub mbox_put : (msg : ℕ → ℕ) → (msg_length : ℕ) → Mailbox → Mailbox
unfolding put_bytes
mbox_put msg msg_length b = record b {
  buff_used = b.buff_used + msg_length;
  buff = put_bytes msg_length msg b.end b.buff;
  end = (b.end + msg_length) % max_mbox_length;
}

pub mbox_take : (msg : ℕ → ℕ) → (msg_length : ℕ) → Mailbox → (ℕ → ℕ) × Mailbox
unfolding take_bytes
mbox_take msg msg_length b = (
  take_bytes msg_length b.buff b.start msg,
  record b {
    buff_used = b.buff_used - msg_length;
    start = (b.start + msg_length) % max_mbox_length;
  },
)

pub mbox_lock_acquire : ℕ → Cmd System (Unit {0})
mbox_lock_acquire id = on_kernel (λ s. do_mutex_lock_acquire (mbox_lock s id))

-- Whether a pass of the loop waited or completed the operation, with the message that it received.
pub data Outcome : Type 0 where
  waits : Outcome
  sent : Outcome
  received : (ℕ → ℕ) → Outcome

pub mbox_send_wait : ℕ → (ℕ → ℕ) → ℕ → Cmd System Outcome
unfolding mbox_put
mbox_send_wait id msg msg_length = do
  b ← get_box id
  if ltb max_mbox_length (b.buff_used + msg_length)
      then (do on_kernel (λ s. do_condition_wait (mbox_lock s id) (not_full s id)); pure waits)
      else (do
        set_box id (mbox_put msg msg_length b)
        on_kernel (λ s. do_condition_broadcast (not_empty s id))
        on_kernel (λ s. do_mutex_lock_release (mbox_lock s id))
        pure sent)

pub mbox_recv_wait : ℕ → (ℕ → ℕ) → ℕ → Cmd System Outcome
unfolding mbox_take
mbox_recv_wait id msg msg_length = do
  b ← get_box id
  if ltb b.buff_used msg_length
      then (do on_kernel (λ s. do_condition_wait (mbox_lock s id) (not_empty s id)); pure waits)
      else (do
        set_box id (mbox_take msg msg_length b).1
        on_kernel (λ s. do_condition_broadcast (not_full s id))
        on_kernel (λ s. do_mutex_lock_release (mbox_lock s id))
        pure (received (mbox_take msg msg_length b).0))
