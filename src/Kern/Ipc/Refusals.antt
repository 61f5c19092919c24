-- ===== src/Kern/Ipc/Refusals.antt =====
-- What a refused Send, Reply or AwaitEvent leaves.
use choochoo_os.Base.{
  ℕ, ◌≡◌, inl, inr, arith, none, some, update, update_self, Option-cases, sym, refl, ◌∙◌,
}
use choochoo_os.Base.Int.{ℤ, negsuc}
use choochoo_os.Kern.Kalloc.{send_state, slab_alloc, slab_free, Scan, found, exhausted, unfinished}
use choochoo_os.Kern.State.{
  TaskDescriptor, ReceiveState, Kernel, ok, M, alloc, deref, modify_task, ◌>>=◌, ◌>>◌,
}
use choochoo_os.Kern.Task.{index_of}
use choochoo_os.Kern.Ipc.{send_first, send_now, dispatch_send, sending, svc_send, svc_reply}

-- Everything that a task can see is as before: the descriptors, the queues and user memory.
pub record Same (k k' : Kernel) : Type 0 where
  pub tasks : (c : ℕ) → k'.tasks c ≡ k.tasks c
  pub mlfq : k'.mlfq ≡ k.mlfq
  pub memory : k'.memory ≡ k.memory
  pub current : k'.current_task ≡ k.current_task

send_first_accepts :
    (k k' : Kernel) (a b msg e : ℕ) (len : ℤ) → send_first b msg len a k ≡ ok (negsuc e) k' → ⊥
unfolding send_first
send_first_accepts k k' a b msg e len h = ground arith

send_now_accepts :
    (k k' : Kernel) (a b msg e : ℕ) (len : ℤ) (r : ReceiveState)
    → send_now b r msg len a k ≡ ok (negsuc e) k'
    → ⊥
unfolding send_now
send_now_accepts k k' a b msg e len r h = ground arith

-- The receiver's branch refuses only by taking the send state back.
dispatch_send_refused :
    (k k' : Kernel) (a b slot msg e : ℕ) (len : ℤ)
    → dispatch_send slot b msg len a k ≡ ok (negsuc e) k'
    → (t : TaskDescriptor) → k.tasks a ≡ some t
    → k' ≡ record k {
      slabs = slab_free (some slot) send_state k.slabs;
      tasks = update k.tasks a (some (record t { send_state = none }));
    }
unfolding dispatch_send
dispatch_send_refused k k' a b slot msg e len h t et = elim (Option-cases (k.tasks b)) [
  | inl gone ↦ ground arith
  | inr (tb, eb) ↦ elim (Option-cases tb.receive_state) [
    | inl none_yet ↦ ground (arith, send_first_accepts k k' a b msg e len)
    | inr (r, er) ↦
        ground (arith, send_first_accepts k k' a b msg e len, send_now_accepts k k' a b msg e len r)
  ]
]

-- The part of `svc_send` behind its two tests.
abbrev begin_send : ℕ → ℕ → ℕ → ℤ → ℕ → ℤ → M ℤ
begin_send a b msg len reply rplen = do
  p ← alloc send_state
  slot ← deref p
  modify_task a (sending slot reply rplen)
  dispatch_send slot b msg len a

begun_refused :
    (k k' : Kernel) (a b msg e reply : ℕ) (len rplen : ℤ) (ta : TaskDescriptor)
    → k.tasks a ≡ some ta
    → ta.send_state ≡ none
    → begin_send a b msg len reply rplen k ≡ ok (negsuc e) k'
    → Same k k'
unfolding alloc
begun_refused k k' a b msg e reply len rplen ta ea es h = go (slab_alloc send_state k.slabs).0 refl
  where
    go : (r : Scan) → (slab_alloc send_state k.slabs).0 ≡ r → Same k k'
    go exhausted er = ground arith
    go unfinished er = ground arith
    go (found slot) er =
        let k1 : Kernel = record k {
          slabs = (slab_alloc send_state k.slabs).1;
          tasks = update k.tasks a (some (sending slot reply rplen ta));
        } in
        let run : begin_send a b msg len reply rplen k ≡ dispatch_send slot b msg len a k1 =
          ground arith in
        let d =
          dispatch_send_refused k1 k' a b slot msg e len (sym run ∙ h) (sending slot reply rplen ta)
            (update_self k.tasks a _) in
        rw d (record { tasks = λ c. ground arith; mlfq = refl; memory = refl; current = refl })

-- A Send that returns a negative number has changed no descriptor, queue or byte of memory.
pub svc_send_refused :
    (k k' : Kernel) (a : ℕ) (tid : ℤ) (msg e reply : ℕ) (len rplen : ℤ)
    → svc_send tid msg len reply rplen a k ≡ ok (negsuc e) k'
    → Same k k'
unfolding svc_send alloc
svc_send_refused k k' a tid msg e reply len rplen h = elim (Option-cases (k.tasks a)) [
  | inl gone ↦ ground arith
  | inr (ta, ea) ↦ elim (Option-cases ta.send_state) [
    | inr (s, es) ↦ ground arith
    | inl es ↦ ground (arith, begun_refused k k' a (index_of tid) msg e reply len rplen ta ea es)
  ]
]

-- A Reply that returns a negative number has changed nothing at all.
pub svc_reply_refused :
    (k k' : Kernel) (tid : ℤ) (reply e : ℕ) (n : ℤ)
    → svc_reply tid reply n k ≡ ok (negsuc e) k'
    → k' ≡ k
unfolding svc_reply
svc_reply_refused k k' tid reply e n h = ground arith
