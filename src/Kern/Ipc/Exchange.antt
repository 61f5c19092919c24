-- ===== src/Kern/Ipc/Exchange.antt =====
-- kern/svc_helpers.c: a message and its reply, through svc_send, svc_receive and svc_reply.
use Prim.Native.Nat.{min}
use choochoo_os.Base.{ℕ, ◌%◌, ◌^◌, ◌<◌, ◌≡◌, ◌≢◌, ◌∙◌, refl, false, none, some, update, [], ap}
use choochoo_os.Base.Int.{pos}
use choochoo_os.Memory.{memcpy}
use choochoo_os.ByteQueue.Defs.{BQueue}
use choochoo_os.ByteQueue.Refine.{Holds}
use choochoo_os.Kern.Kalloc.{code, count, send_state, found, slab_alloc, slab_free}
use choochoo_os.Kern.Kalloc.Blocks.{IsSlab, slab_free-slab_alloc}
use choochoo_os.Kern.State.{status_is, ready, receive_wait, TaskDescriptor, Kernel, Ends, Ends_mono}
use choochoo_os.Kern.Ipc.{svc_send, svc_receive, svc_reply}
use choochoo_os.Kern.Ipc.Deliver.{delivered}
use choochoo_os.Kern.Ipc.Send.{send_to_busy}
use choochoo_os.Kern.Ipc.Receive.{receive_from_queue, reply_to_waiting}
use choochoo_os.Kern.Ipc.Rendezvous.{queued}

-- A call of a system call that has returned `len`.
abbrev pub returned : ℕ → TaskDescriptor → TaskDescriptor
returned len t = record t {
  switch_frame = record (t.switch_frame) { x = update t.switch_frame.x 0 (len % 2 ^ 64) };
}

-- What an exchange comes to: the message of `n` bytes is with the receiver, the reply of `m` bytes is
-- with the sender, both have the count of their bytes, the
-- block of the send state is given back, and no other task changes.
pub record Completed (k : Kernel) (a b : ℕ) (ta tb : TaskDescriptor)
    (buffer msg n tid reply answer m : ℕ) (k' : Kernel) : Type 0 where
  pub memory : k'.memory ≡ memcpy reply answer m (delivered buffer msg n tid a k.memory)
  pub slabs : k'.slabs ≡ k.slabs
  pub sender : k'.tasks a ≡ some (record (returned m ta) { status = ready; send_state = none })
  pub receiver :
      (q : BQueue) × (k'.tasks b ≡ some (record (returned n tb) { send_listeners_queue = q }))
      × Holds q []
  pub others : (c : ℕ) → c ≢ a → c ≢ b → k'.tasks c ≡ k.tasks c

send_state-ne : send_state ≢ count
send_state-ne e = cc

module _ (k : Kernel) (a b : ℕ) (ta tb : TaskDescriptor)
    (buffer room tid msg n reply space answer m slot : ℕ) where
  -- A task sends to one that is busy, which then receives and replies: the receiver has the message
  -- and the sender's number, the sender is ready with the reply, each has the count of bytes that both
  -- buffers allow, the slabs are as before the Send, and no other task changes. The lengths are not
  -- negative, no message is queued for the receiver before, and the slab of send states has a free
  -- block.
  pub exchange_completes :
      a ≢ b
      → 0 < a
      → a < 128
      → 0 < b
      → b < 128
      → k.tasks a ≡ some ta
      → k.tasks b ≡ some tb
      → ta.tid ≡ a
      → ta.send_state ≡ none
      → Holds tb.send_listeners_queue []
      → status_is tb.status receive_wait ≡ false
      → IsSlab (k.slabs (code send_state))
      → (slab_alloc send_state k.slabs).0 ≡ found slot
      → Ends (svc_send (pos b) msg (pos n) reply (pos space) a k) λ _ k1.
        Ends (svc_receive tid buffer (pos room) b k1) λ _ k2.
          Ends (svc_reply (pos a) answer (pos m) k2) λ v k3.
            (v ≡ pos (min m space))
            × Completed k a b ta tb buffer msg (min n room) tid reply answer (min m space) k3
  exchange_completes ne a0 a1 b0 b1 ea eb et es queue ew slab el =
      Ends_mono (svc_send (pos b) msg (pos n) reply (pos space) a k)
        (λ _ k1 (_, m1, tb1, ta1, others1, slabs1).
          Ends_mono (svc_receive tid buffer (pos room) b k1)
            (λ _ k2 (m2, ta2, tb2, queue2, others2, slabs2).
              Ends_mono (svc_reply (pos a) answer (pos m) k2)
                (λ v k3 (v3, m3, slabs3, ta3, others3). (
                  v3,
                  record {
                    memory =
                        m3
                        ∙ ap (memcpy reply answer (min m space))
                            (m2 ∙ ap (delivered buffer msg (min n room) tid a) m1);
                    slabs =
                        slabs3
                        ∙ ap (slab_free (some slot) send_state) (slabs2 ∙ slabs1)
                        ∙ slab_free-slab_alloc send_state k.slabs slot send_state-ne slab el;
                    sender = ta3;
                    receiver = (_, others3 b (λ e. cc) ∙ tb2, queue2);
                    others = λ c na nb. others3 c na ∙ others2 c na nb ∙ others1 c na nb;
                  },
                ))
                (reply_to_waiting k2 a _ _ answer m space a0 a1 ta2 refl refl refl))
            (receive_from_queue k1 b a [] _ _ _ tid buffer n room ne a0 a1 ta1 tb1
              (queued k a b ta tb buffer room tid msg n reply (pos space) ne a0 a1 b0 b1 ea eb et es
                queue)
              refl refl))
        (send_to_busy k a b ta tb slot msg n reply (pos space) ne b0 b1 ea eb es ew el)
