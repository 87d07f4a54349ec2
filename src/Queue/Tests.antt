-- ===== src/Queue/Tests.antt =====
-- A queue of numbers.
use webx_engine.Common.{ℕ, ◌≡◌, refl, List, [], ◌∷◌, ◌++◌, if◌then◌else◌}
use webx_engine.Common.Int.{pos, negsuc, eqb_ℤ}
use webx_engine.Queue.{Queue, QueueCall, puts, gets, new_queue, put, queue_call, queue_calls}
use webx_engine.Queue.Order.{IsOrdered, contents, put-IsOrdered, queue-IsOrdered}

abbrev test_calls : List (QueueCall ℕ)
test_calls = puts 7 (pos 0) ∷ puts 8 (pos 3) ∷ puts 9 (pos 0) ∷ puts 5 (negsuc 1) ∷ gets ∷ []

queue-IsOrdered_example : IsOrdered (queue_calls test_calls new_queue).items
queue-IsOrdered_example = queue-IsOrdered test_calls

abbrev test_queue : Queue ℕ
test_queue = queue_calls test_calls new_queue

put-IsOrdered_example :
    IsOrdered (put 6 (pos 0) test_queue).items
    × (contents (pos 0) (put 6 (pos 0) test_queue).items
        ≡ contents (pos 0) test_queue.items ++ (if eqb_ℤ (pos 0) (pos 0) then 6 ∷ [] else []))
unfolding queue_calls queue_call put
put-IsOrdered_example = put-IsOrdered 6 (pos 0) (pos 0) test_queue (queue-IsOrdered test_calls) refl
