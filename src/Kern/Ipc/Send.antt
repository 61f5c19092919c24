-- ===== src/Kern/Ipc/Send.antt =====
-- svc_send: what a call that is accepted does.
use Prim.Native.Nat.{min}
use choochoo_os.Base.{
  ℕ, ◌%◌, ◌^◌, ◌<◌, ◌≡◌, refl, ◌≢◌, false, none, some, update, update_self, update_ne, sym, ◌∙◌,
  arith,
}
use choochoo_os.Base.Int.{ℤ, pos}
use choochoo_os.ByteQueue.Defs
use choochoo_os.Kern.Kalloc.{send_state, found, slab_alloc}
use choochoo_os.Kern.State.{
  status_is, send_wait, receive_wait, TaskDescriptor, SendState, ReceiveState, Kernel, alloc, Ends,
  Ends_mono,
}
use choochoo_os.Kern.Ipc.{send_first, send_now, dispatch_send, sending, svc_send}
use choochoo_os.Kern.Ipc.Deliver.{received, awaiting_reply, delivered}

-- The receiver waits: Send copies as many bytes as both sides allow, tells the receiver their number
-- and the sender, makes it ready, and blocks the sender for the reply. No other task changes.
pub send_to_waiting :
    (k : Kernel) (a b : ℕ) (ta tb : TaskDescriptor) (r : ReceiveState) (slot : ℕ)
    (msg n room reply : ℕ) (rplen : ℤ)
    → a ≢ b
    → 0 < b
    → b < 128
    → k.tasks a ≡ some ta
    → k.tasks b ≡ some tb
    → ta.send_state ≡ none
    → tb.status ≡ receive_wait
    → tb.receive_state ≡ some r
    → r.receive_buffer_len ≡ pos room
    → (slab_alloc send_state k.slabs).0 ≡ found slot
    → Ends (svc_send (pos b) msg (pos n) reply rplen a k) λ v k'.
      (v ≡ pos 0)
      × (k'.memory ≡ delivered r.receive_buffer msg (min n room) r.sender_tid ta.tid k.memory)
      × (k'.tasks b ≡ some (received (min n room) tb))
      × (k'.tasks a
          ≡ some (
              awaiting_reply
                (record {
                  slot = slot;
                  reply_buffer = reply;
                  reply_buffer_len = rplen;
                  send_buffer = 0;
                  send_buffer_len = pos 0;
                })
                ta))
      × ((c : ℕ) → c ≢ a → c ≢ b → k'.tasks c ≡ k.tasks c)
unfolding svc_send dispatch_send send_now alloc
send_to_waiting k a b ta tb r slot msg n room reply rplen ne b0 b1 ea eb es ew er ec el =
    ground arith

send_first_lem :
    (k : Kernel) (a b : ℕ) (ta tb : TaskDescriptor) (s : SendState) (msg n : ℕ)
    → a ≢ b
    → k.tasks a ≡ some ta
    → k.tasks b ≡ some tb
    → ta.send_state ≡ some s
    → Ends (send_first b msg (pos n) a k) λ v k'.
      (v ≡ pos 0)
      × (k'.memory ≡ k.memory)
      × (k'.tasks b
          ≡ some (record tb {
            send_listeners_queue = (Defs.push tb.send_listeners_queue (ta.tid % 2 ^ 8)).0;
          }))
      × (k'.tasks a
          ≡ some (record ta {
            status = send_wait;
            send_state = some (record s { send_buffer = msg; send_buffer_len = pos n });
          }))
      × ((c : ℕ) → c ≢ a → c ≢ b → k'.tasks c ≡ k.tasks c)
      × (k'.slabs ≡ k.slabs)
unfolding send_first
send_first_lem k a b ta tb s msg n ne ea eb es = ground arith

svc_send_busy :
    (k : Kernel) (a b : ℕ) (ta tb : TaskDescriptor) (slot : ℕ) (msg n reply : ℕ) (rplen : ℤ)
    → a ≢ b
    → 0 < b
    → b < 128
    → k.tasks a ≡ some ta
    → k.tasks b ≡ some tb
    → ta.send_state ≡ none
    → status_is tb.status receive_wait ≡ false
    → (slab_alloc send_state k.slabs).0 ≡ found slot
    → svc_send (pos b) msg (pos n) reply rplen a k
      ≡ send_first b msg (pos n) a (record k {
        slabs = (slab_alloc send_state k.slabs).1;
        tasks = update k.tasks a (some (sending slot reply rplen ta));
      })
unfolding svc_send dispatch_send alloc
svc_send_busy k a b ta tb slot msg n reply rplen ne b0 b1 ea eb es ew el = ground arith

-- The receiver does not wait: Send queues the sender's number and blocks the sender, which keeps the
-- message. No byte of memory and no other task changes.
pub send_to_busy :
    (k : Kernel) (a b : ℕ) (ta tb : TaskDescriptor) (slot : ℕ) (msg n reply : ℕ) (rplen : ℤ)
    → a ≢ b
    → 0 < b
    → b < 128
    → k.tasks a ≡ some ta
    → k.tasks b ≡ some tb
    → ta.send_state ≡ none
    → status_is tb.status receive_wait ≡ false
    → (slab_alloc send_state k.slabs).0 ≡ found slot
    → Ends (svc_send (pos b) msg (pos n) reply rplen a k) λ v k'.
      (v ≡ pos 0)
      × (k'.memory ≡ k.memory)
      × (k'.tasks b
          ≡ some (record tb {
            send_listeners_queue = (Defs.push tb.send_listeners_queue (ta.tid % 2 ^ 8)).0;
          }))
      × (k'.tasks a
          ≡ some (record ta {
            status = send_wait;
            send_state = some (record {
              slot = slot;
              reply_buffer = reply;
              reply_buffer_len = rplen;
              send_buffer = msg;
              send_buffer_len = pos n;
            });
          }))
      × ((c : ℕ) → c ≢ a → c ≢ b → k'.tasks c ≡ k.tasks c)
      × (k'.slabs ≡ (slab_alloc send_state k.slabs).1)
send_to_busy k a b ta tb slot msg n reply rplen ne b0 b1 ea eb es ew el =
    let k' : Kernel = record k {
      slabs = (slab_alloc send_state k.slabs).1;
      tasks = update k.tasks a (some (sending slot reply rplen ta));
    } in
    rw (svc_send_busy k a b ta tb slot msg n reply rplen ne b0 b1 ea eb es ew el) (
      Ends_mono (send_first b msg (pos n) a k')
        (λ v l (p0, p1, p2, p3, p4, p5).
          (p0, p1, p2, p3, λ c na nb. p4 c na nb ∙ update_ne k.tasks a c _ (λ e. na (sym e)), p5))
        (send_first_lem k' a b (sending slot reply rplen ta) tb _ msg n ne (update_self k.tasks a _)
          (update_ne k.tasks a b _ ne ∙ eb) refl))
