-- ===== src/ByteQueue/Fifo.antt =====
-- What lib/byte_queue.h promises of a byte queue: a bounded first-in first-out list, oldest first.
use choochoo_os.Base.{ℕ, List, [], ◌∷◌, ◌++◌, Bool, true, false, ltb, if◌then◌else◌}
use choochoo_os.Base
use choochoo_os.Base.Int.{pos, ltb_ℤ}
use choochoo_os.ByteQueue.Defs.{BQueue, max_queue_length}
use choochoo_os.ByteQueue.Defs

-- A client's call. `take` is a `pop` guarded by `length() > 0`, as lib/byte_queue.h asks.
pub data Call : Type 0 where
  put : ℕ → Call
  take : Call

pub data Reply : Type 0 where
  stored : Bool → Reply
  taken : ℕ → Reply
  nothing : Reply

-- The calls on the bounded list.
unfoldable pub run_list : List ℕ → List Call → List Reply
run_list xs [] = []
run_list xs (put x ∷ cs) =
    let kept = run_list (xs ++ x ∷ []) cs in
    let full = run_list xs cs in
    if ltb (Base.length xs) max_queue_length then stored true ∷ kept else stored false ∷ full
run_list [] (take ∷ cs) = nothing ∷ run_list [] cs
run_list (x ∷ xs) (take ∷ cs) = taken x ∷ run_list xs cs

-- The same calls on the circular buffer.
unfoldable pub run : BQueue → List Call → List Reply
run q [] = []
run q (put x ∷ cs) = let (q', done) = Defs.push q x in stored done ∷ run q' cs
run q (take ∷ cs) =
    let (x, q') = Defs.pop q in
    let rest = run q' cs in
    let same = run q cs in if ltb_ℤ (pos 0) (Defs.length q) then taken x ∷ rest else nothing ∷ same
