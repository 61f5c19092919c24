-- ===== src/ByteQueue/Refine.antt =====
-- The circular buffer of lib/byte_queue.c holds a list of bytes, and behaves as that list.
use choochoo_os.Base.{
  ℕ, ◌+◌, ◌%◌, ◌≤◌, ◌<◌, ◌≡◌, refl, inl, inr, ◌∙◌, ap, List, [], ◌∷◌, ◌++◌, ltb→lt, ltb→le, true,
  false, none, some, ltb, ◌==◌, if◌then◌else◌, length, length-append, update, update_ne, arith,
  Bool-cases,
}
use choochoo_os.Base.Int.{pos}
use choochoo_os.ByteQueue.Defs
use choochoo_os.ByteQueue.Defs.{BQueue, max_queue_length}
use choochoo_os.ByteQueue.Fifo.{Call, put, take, stored, run, run_list}

-- The bytes of a list stand one after the other from index `p` on, going round at the end.
abbrev pub Bytes : (ℕ → ℕ) → ℕ → List ℕ → Type 0
Bytes que p [] = Unit
Bytes que p (x ∷ xs) = (que p ≡ x) × Bytes que ((p + 1) % max_queue_length) xs

-- The buffer's indices lie in the array, and it holds the bytes `xs`, oldest first.
pub record Holds (q : BQueue) (xs : List ℕ) : Type 0 where
  pub front_in : q.front_ptr < max_queue_length
  pub back_at : q.back_ptr ≡ (q.front_ptr + length xs) % max_queue_length
  pub count : q.len ≡ pos (length xs)
  pub room : length xs ≤ max_queue_length
  pub bytes : Bytes q.que q.front_ptr xs

-- The byte after the last is written where none of the others stands.
Bytes-snoc :
    (que : ℕ → ℕ) (p x b : ℕ) (xs : List ℕ)
    → p < max_queue_length
    → length xs < max_queue_length
    → b ≡ (p + length xs) % max_queue_length
    → Bytes que p xs
    → Bytes (update que b x) p (xs ++ x ∷ [])
Bytes-snoc que p x b [] hp hl e h = (ground arith, tt)
Bytes-snoc que p x b (y ∷ ys) hp hl e h = (
  update_ne que b p x (omega arith) ∙ h.0,
  Bytes-snoc que ((p + 1) % max_queue_length) x b ys (omega arith) (omega arith) (omega arith) h.1,
)

pub new_byte_queue-Holds : Holds Defs.new_byte_queue []
unfolding Defs.new_byte_queue
new_byte_queue-Holds = ground arith

pub push-Holds :
    {q : BQueue} {xs : List ℕ} (x : ℕ)
    → length xs < max_queue_length
    → Holds q xs
    → ((Defs.push q x).1 ≡ true) × Holds (Defs.push q x).0 (xs ++ x ∷ [])
unfolding Defs.push
push-Holds {q} {xs} x h v = ground (
  arith,
  length-append xs (x ∷ []),
  Bytes-snoc q.que q.front_ptr x q.back_ptr xs v.front_in h v.back_at v.bytes,
)

pub push_full :
    {q : BQueue} {xs : List ℕ} (x : ℕ)
    → length xs ≡ max_queue_length
    → Holds q xs
    → ((Defs.push q x).1 ≡ false) × Holds (Defs.push q x).0 xs × ((Defs.push q x).0.is_full ≡ true)
unfolding Defs.push
push_full x h v = ground arith

pub pop-Holds :
    {q : BQueue} {x : ℕ} {xs : List ℕ}
    → Holds q (x ∷ xs)
    → ((Defs.pop q).0 ≡ x) × Holds (Defs.pop q).1 xs × ((Defs.pop q).1.is_full ≡ false)
unfolding Defs.pop
pop-Holds v = ground arith

-- A byte just pushed is the one that `back` reads, unless it went to the array's last index: then
-- `back` reads before the array.
pub back-push :
    {q : BQueue} {xs : List ℕ} (x : ℕ)
    → length xs < max_queue_length
    → Holds q xs
    → Defs.back (Defs.push q x).0 ≡ (if q.back_ptr == 1023 then none else some x)
unfolding Defs.push Defs.back
back-push x h v = ground arith

pub front-Holds : {q : BQueue} {x : ℕ} {xs : List ℕ} → Holds q (x ∷ xs) → Defs.front q ≡ x
unfolding Defs.front
front-Holds v = ground arith

-- No sequence of calls tells the circular buffer from the bounded list that it holds.
pub run_refines :
    (cs : List Call) {q : BQueue} (xs : List ℕ) → Holds q xs → run q cs ≡ run_list xs cs
unfolding run run_list Defs.length
run_refines [] xs v = refl
run_refines (put x ∷ cs) {q} xs v = elim (Bool-cases (ltb (length xs) max_queue_length)) [
  | inl h ↦
      let r = push-Holds x (ltb→lt _ _ h) v in
      rw (h, r.0) (ap (λ l. stored true ∷ l) (run_refines cs (xs ++ x ∷ []) r.1))
  | inr h ↦
      let le : max_queue_length ≤ length xs = ltb→le _ _ h in
      let r = push_full x (omega arith) v in
      rw (h, r.0) (ap (λ l. stored false ∷ l) (run_refines cs xs r.1))
]
run_refines (take ∷ cs) [] v = ground (arith, run_refines cs [] v)
run_refines (take ∷ cs) (x ∷ xs) v =
    let r = pop-Holds v in ground (arith, r.0, run_refines cs xs r.1)
