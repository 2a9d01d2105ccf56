-- ===== src/Tests/Queues.antt =====
-- lib/queue.c at concrete inputs.
use zmap_embedded_ip.Base.{◌≡◌, refl, none, some, List, [], ◌∷◌, arith}
use zmap_embedded_ip.Queue.{Queue}
use zmap_embedded_ip.Queue.Linked.{IsQueue}
use zmap_embedded_ip.Queue.Fifo.{Op, push, pop, run, run-IsQueue}

abbrev empty_queue : Queue
empty_queue = record {
  front = none;
  back = none;
  size = 0;
  cells = λ a. record { content = 0; prev = none; next = none };
}

empty_queue-IsQueue : IsQueue empty_queue [] []
empty_queue-IsQueue = record {
  front = refl;
  back = tt;
  size = refl;
  count = omega arith;
  distinct = tt;
  linked = tt;
}

-- The node at 4 is used twice.
abbrev ops : List Op
ops = push 10 4 ∷ push 20 6 ∷ pop ∷ push 30 4 ∷ pop ∷ pop ∷ pop ∷ []

run-IsQueue_example : run ops empty_queue ≡ some (10 ∷ 20 ∷ 30 ∷ [])
run-IsQueue_example =
    run-IsQueue ops empty_queue [] [] empty_queue-IsQueue (omega arith) (omega arith)
