-- ===== src/Kern/Ipc/Rendezvous.antt =====
-- A message arrives the same whether the sender or the receiver comes first.
use Prim.Native.Nat.{min}
use choochoo_os.Base.{ℕ, ◌%◌, ◌^◌, ◌<◌, ◌≡◌, refl, ◌≢◌, false, none, some, ap, ◌∙◌, arith, [], ◌∷◌}
use choochoo_os.Base.Int.{ℤ, pos}
use choochoo_os.ByteQueue.Defs
use choochoo_os.ByteQueue.Refine.{Holds, push-Holds}
use choochoo_os.Kern.Kalloc.{send_state, receive_state, found, slab_alloc}
use choochoo_os.Kern.State.{
  status_is, receive_wait, reply_wait, TaskDescriptor, Kernel, Ends, Ends_mono,
}
use choochoo_os.Kern.Ipc.{svc_send, svc_receive}
use choochoo_os.Kern.Ipc.Deliver.{delivered}
use choochoo_os.Kern.Ipc.Send.{send_to_waiting, send_to_busy}
use choochoo_os.Kern.Ipc.Receive.{receive_from_queue, receive_from_none}

-- What both orders come to: the message and the sender's number are in the receiver's memory, the
-- receiver has the count of bytes in x0, and the sender waits for the reply.
abbrev pub Exchanged : Kernel → (a b buffer msg len tid : ℕ) → Kernel → Type 0
Exchanged k a b buffer msg len tid k' =
    (k'.memory ≡ delivered buffer msg len tid a k.memory)
    × ((tb : TaskDescriptor) × (k'.tasks b ≡ some tb) × (tb.switch_frame.x 0 ≡ len % 2 ^ 64))
    × ((ta : TaskDescriptor) × (k'.tasks a ≡ some ta) × (ta.status ≡ reply_wait))
    × ((c : ℕ) → c ≢ a → c ≢ b → k'.tasks c ≡ k.tasks c)

module _ (k : Kernel) (a b : ℕ) (ta tb : TaskDescriptor) (buffer room tid msg n reply : ℕ)
    (rplen : ℤ) (ne : a ≢ b) (a0 : 0 < a) (a1 : a < 128) (b0 : 0 < b) (b1 : b < 128)
    (ea : k.tasks a ≡ some ta) (eb : k.tasks b ≡ some tb) (et : ta.tid ≡ a)
    (es : ta.send_state ≡ none) (queue : Holds tb.send_listeners_queue []) where
  pub queued : Holds (Defs.push tb.send_listeners_queue (ta.tid % 2 ^ 8)).0 (a ∷ [])
  queued =
      let number : ta.tid % 2 ^ 8 ≡ a = omega arith in
      rw number (push-Holds a (omega arith) queue).1

  -- Sender first.
  send-receive :
      (slot : ℕ)
      → status_is tb.status receive_wait ≡ false
      → (slab_alloc send_state k.slabs).0 ≡ found slot
      → Ends (svc_send (pos b) msg (pos n) reply rplen a k) λ _ k1.
        Ends
          (svc_receive tid buffer (pos room) b k1)
          λ _ k2. Exchanged k a b buffer msg (min n room) tid k2
  send-receive slot ew el =
      Ends_mono (svc_send (pos b) msg (pos n) reply rplen a k)
        (λ v k1 (_, m, tb', ta', others, _).
          Ends_mono (svc_receive tid buffer (pos room) b k1)
            (λ _ k2 (m2, ta2, tb2, _, others2, _). (
              m2 ∙ ap (delivered buffer msg (min n room) tid a) m,
              (_, tb2, refl),
              (_, ta2, refl),
              λ c na nb. others2 c na nb ∙ others c na nb,
            ))
            (receive_from_queue k1 b a [] _ _ _ tid buffer n room ne a0 a1 ta' tb' queued refl
              refl))
        (send_to_busy k a b ta tb slot msg n reply rplen ne b0 b1 ea eb es ew el)

  -- Receiver first.
  receive-send :
      (slot slot' : ℕ)
      → (slab_alloc receive_state k.slabs).0 ≡ found slot
      → (slab_alloc send_state (slab_alloc receive_state k.slabs).1).0 ≡ found slot'
      → Ends (svc_receive tid buffer (pos room) b k) λ _ k1.
        Ends
          (svc_send (pos b) msg (pos n) reply rplen a k1)
          λ _ k2. Exchanged k a b buffer msg (min n room) tid k2
  receive-send slot slot' el el' =
      Ends_mono (svc_receive tid buffer (pos room) b k)
        (λ _ k1 (m, sl, tb', others).
          Ends_mono (svc_send (pos b) msg (pos n) reply rplen a k1)
            (λ _ k2 (_, m2, tb2, ta2, others2). (
              m2 ∙ (λ i. delivered buffer msg (min n room) tid (et i) (m i)),
              (_, tb2, refl),
              (_, ta2, refl),
              λ c na nb. others2 c na nb ∙ others c nb,
            ))
            (send_to_waiting k1 a b ta _ _ slot' msg n room reply rplen ne b0 b1 (others a ne ∙ ea)
              tb' es refl refl refl (rw sl el')))
        (receive_from_none k b tb slot tid buffer (pos room) eb queue el)

  -- Whichever of Send and Receive comes first, the message arrives: both orders put the same bytes
  -- and the sender's number into the receiver's memory, give the receiver the count of bytes, block the
  -- sender for the reply, and touch no other task. The lengths are not negative, no message is queued
  -- for the receiver before, and the slabs have a free block.
  pub rendezvous :
      (slot slot' slot'' : ℕ)
      → status_is tb.status receive_wait ≡ false
      → (slab_alloc send_state k.slabs).0 ≡ found slot
      → (slab_alloc receive_state k.slabs).0 ≡ found slot'
      → (slab_alloc send_state (slab_alloc receive_state k.slabs).1).0 ≡ found slot''
      → (Ends (svc_send (pos b) msg (pos n) reply rplen a k) λ _ k1.
          Ends
            (svc_receive tid buffer (pos room) b k1)
            λ _ k2. Exchanged k a b buffer msg (min n room) tid k2)
        × (Ends (svc_receive tid buffer (pos room) b k) λ _ k1.
            Ends
              (svc_send (pos b) msg (pos n) reply rplen a k1)
              λ _ k2. Exchanged k a b buffer msg (min n room) tid k2)
  rendezvous slot slot' slot'' ew e e' e'' =
      (send-receive slot ew e, receive-send slot' slot'' e' e'')
