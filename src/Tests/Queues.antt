-- ===== src/Tests/Queues.antt =====
-- The queue operations on the concrete queues.
use ucas_operating_system_la.Base.{[], ◌∷◌, ◌≡◌, arith}
use ucas_operating_system_la.Base.Run.{Runs}
use ucas_operating_system_la.Queue.{null, queue_push, queue_dequeue, queue_remove}
use ucas_operating_system_la.Queue.Spec.{IsQueue, Outside}
use ucas_operating_system_la.Queue.Push.{queue_push-append}
use ucas_operating_system_la.Queue.Dequeue.{queue_dequeue-cons}
use ucas_operating_system_la.Queue.Remove.{queue_remove-append}
use ucas_operating_system_la.Tests.Demo.{demo_links}

demo-IsQueue : IsQueue demo_links 108 (5 ∷ 6 ∷ [])
demo-IsQueue = record { valid = omega arith; links = ground arith }

queue_push-append_example :
    Runs
      (λ _ s'. IsQueue s' 108 (5 ∷ 6 ∷ 9 ∷ []) × Outside 108 (9 ∷ 5 ∷ 6 ∷ []) demo_links s')
      (queue_push 108 9 demo_links)
queue_push-append_example =
    queue_push-append demo_links 108 9 (5 ∷ 6 ∷ []) demo-IsQueue (omega arith) (ground arith)

queue_dequeue-cons_example :
    Runs
      (λ a s'.
        (a ≡ 5)
        × IsQueue s' 108 (6 ∷ [])
        × Outside 108 (5 ∷ 6 ∷ []) demo_links s'
        × (s'.prev 5 ≡ null)
        × (s'.next 5 ≡ null))
      (queue_dequeue 108 demo_links)
queue_dequeue-cons_example = queue_dequeue-cons demo_links 108 5 (6 ∷ []) demo-IsQueue

queue_remove-append_example :
    Runs
      (λ a s'.
        (a ≡ null)
        × IsQueue s' 108 (5 ∷ [])
        × Outside 108 (5 ∷ 6 ∷ []) demo_links s'
        × (s'.prev 6 ≡ null)
        × (s'.next 6 ≡ null))
      (queue_remove 108 6 demo_links)
queue_remove-append_example = queue_remove-append demo_links 108 (5 ∷ []) 6 [] demo-IsQueue
