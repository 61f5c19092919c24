-- ===== src/ByteQueue/Tests.antt =====
-- Runs of the byte queue, and its theorems at concrete queues.
use choochoo_os.Base.{◌≡◌, refl, List, [], ◌∷◌, true, false, arith}
use choochoo_os.Base.Int.{pos}
use choochoo_os.ByteQueue.Defs
use choochoo_os.ByteQueue.Defs.{BQueue}
use choochoo_os.ByteQueue.Fifo.{Call, put, take, stored, taken, nothing, run, run_list}
use choochoo_os.ByteQueue.Refine.{Holds, new_byte_queue-Holds, push-Holds, run_refines}

abbrev script : List Call
script = put 7 ∷ put 8 ∷ take ∷ take ∷ take ∷ []

-- Holding 5, with the next byte going to the last index.
abbrev near_end : BQueue
near_end = record { que = λ _. 5; front_ptr = 1022; back_ptr = 1023; len = pos 1; is_full = false }

near_end-Holds : Holds near_end (5 ∷ [])
near_end-Holds = ground arith

run-script :
    run Defs.new_byte_queue script ≡ stored true ∷ stored true ∷ taken 7 ∷ taken 8 ∷ nothing ∷ []
unfolding run Defs.new_byte_queue Defs.push Defs.pop Defs.length
run-script = refl

run_refines_example : run Defs.new_byte_queue script ≡ run_list [] script
run_refines_example = run_refines script [] new_byte_queue-Holds

push-Holds_example : ((Defs.push near_end 6).1 ≡ true) × Holds (Defs.push near_end 6).0 (5 ∷ 6 ∷ [])
push-Holds_example = push-Holds 6 (omega arith) near_end-Holds
