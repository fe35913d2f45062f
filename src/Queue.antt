-- ===== src/Queue.antt =====
-- kernel/sched/queue.c: doubly linked queues of process control blocks.
-- The C code reaches the links through pointers, so the store has one map for each field that it
-- touches: `prev` and `next` of `pcb_t`, `head` and `tail` of `queue_t`. A pointer is a number, NULL
-- is 0, and a read or a write through NULL is a fault.
pub mod Seg
pub mod Spec
pub mod Push
pub mod Dequeue
pub mod Remove
use ucas_operating_system_la.Base.{ℕ, Bool, true, false, ◌&&◌, ◌==◌, if◌then◌else◌, put}
use ucas_operating_system_la.Base.Run.{Cmd, pure, fault, ◌>>=◌, ◌>>◌}

abbrev pub Ptr : Type 0
Ptr = ℕ

abbrev pub null : Ptr
null = 0

pub record Links : Type 0 where
  pub prev : Ptr → Ptr
  pub next : Ptr → Ptr
  pub head : Ptr → Ptr
  pub tail : Ptr → Ptr

-- A field read and a field write, through a pointer that must not be NULL.
abbrev pub read : (Links → Ptr → Ptr) → Ptr → Cmd Links Ptr
read field p s = if p == null then fault s else pure (field s p) s

abbrev set_prev : Ptr → Ptr → Cmd Links (Unit {0})
set_prev p v s = if p == null then fault s else pure tt (record s { prev = put s.prev p v })

abbrev set_next : Ptr → Ptr → Cmd Links (Unit {0})
set_next p v s = if p == null then fault s else pure tt (record s { next = put s.next p v })

abbrev set_head : Ptr → Ptr → Cmd Links (Unit {0})
set_head q v s = if q == null then fault s else pure tt (record s { head = put s.head q v })

abbrev set_tail : Ptr → Ptr → Cmd Links (Unit {0})
set_tail q v s = if q == null then fault s else pure tt (record s { tail = put s.tail q v })

abbrev get_prev : Ptr → Cmd Links Ptr
get_prev = read (λ s. s.prev)

abbrev pub get_next : Ptr → Cmd Links Ptr
get_next = read (λ s. s.next)

abbrev pub get_head : Ptr → Cmd Links Ptr
get_head = read (λ s. s.head)

abbrev get_tail : Ptr → Cmd Links Ptr
get_tail = read (λ s. s.tail)

pub queue_init : Ptr → Cmd Links (Unit {0})
queue_init queue = do set_tail queue null; set_head queue null

pub queue_is_empty : Ptr → Cmd Links Bool
queue_is_empty queue = do h ← get_head queue; if h == null then pure true else pure false

pub queue_push : Ptr → Ptr → Cmd Links (Unit {0})
queue_push queue item = do
  h ← get_head queue
  if h == null
      then (do set_head queue item; set_tail queue item; set_next item null; set_prev item null)
      else (do
        t ← get_tail queue
        set_next t item
        set_next item null
        set_prev item t
        set_tail queue item)

pub queue_dequeue : Ptr → Cmd Links Ptr
queue_dequeue queue = do
  temp ← get_head queue
  n ← get_next temp
  if n == null
      then (do set_head queue null; set_tail queue null)
      else (do set_head queue n; h ← get_head queue; set_prev h null)
  set_prev temp null
  set_next temp null
  pure temp

-- The item is unlinked, and the item behind it is returned.
pub queue_remove : Ptr → Ptr → Cmd Links Ptr
queue_remove queue item = do
  n ← get_next item
  h ← get_head queue
  t ← get_tail queue
  if item == h && item == t
      then (do set_head queue null; set_tail queue null)
      else if item == h
      then (do set_head queue n; h' ← get_head queue; set_prev h' null)
      else if item == t
      then (do p ← get_prev item; set_tail queue p; t' ← get_tail queue; set_next t' null)
      else (do p ← get_prev item; set_next p n; set_prev n p)
  set_prev item null
  set_next item null
  pure n
