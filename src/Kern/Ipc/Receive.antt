-- ===== src/Kern/Ipc/Receive.antt =====
-- svc_receive and svc_reply: what a call that is accepted does.
use Prim.Native.Nat.{min}
use choochoo_os.Base.{ℕ, ◌%◌, ◌^◌, ◌<◌, ◌≡◌, ◌≢◌, none, some, update, arith, List, [], ◌∷◌}
use choochoo_os.Base.Int.{ℤ, pos}
use choochoo_os.Memory.{memcpy}
use choochoo_os.ByteQueue.Defs
use choochoo_os.ByteQueue.Refine.{Holds, pop-Holds}
use choochoo_os.Kern.Kalloc.{send_state, receive_state, found, slab_alloc, slab_free}
use choochoo_os.Kern.State.{
  ready, receive_wait, reply_wait, TaskDescriptor, SendState, Kernel, alloc, Ends,
}
use choochoo_os.Kern.Ipc.{svc_receive, svc_reply}
use choochoo_os.Kern.Ipc.Deliver.{awaiting_reply, delivered}

-- A sender is queued: Receive takes the oldest, copies its message, and blocks it for the reply.
pub receive_from_queue :
    (k : Kernel) (b a : ℕ) (others : List ℕ) (ta tb : TaskDescriptor) (s : SendState)
    (tid msg n room : ℕ)
    → a ≢ b
    → 0 < a
    → a < 128
    → k.tasks a ≡ some ta
    → k.tasks b ≡ some tb
    → Holds tb.send_listeners_queue (a ∷ others)
    → ta.send_state ≡ some s
    → s.send_buffer_len ≡ pos n
    → Ends (svc_receive tid msg (pos room) b k) λ _ k'.
      (k'.memory ≡ delivered msg s.send_buffer (min n room) tid a k.memory)
      × (k'.tasks a ≡ some (awaiting_reply s ta))
      × (k'.tasks b
          ≡ some (record tb {
            send_listeners_queue = (Defs.pop tb.send_listeners_queue).1;
            switch_frame = record (tb.switch_frame) {
              x = update tb.switch_frame.x 0 (min n room % 2 ^ 64);
            };
          }))
      × Holds (Defs.pop tb.send_listeners_queue).1 others
      × ((c : ℕ) → c ≢ a → c ≢ b → k'.tasks c ≡ k.tasks c)
      × (k'.slabs ≡ k.slabs)
unfolding svc_receive Defs.length
receive_from_queue k b a others ta tb s tid msg n room ne a0 a1 ea eb q es el =
    ground (arith, pop-Holds q)

-- Nobody is queued: Receive blocks the receiver, which keeps where the message is to go.
pub receive_from_none :
    (k : Kernel) (b : ℕ) (tb : TaskDescriptor) (slot tid msg : ℕ) (room : ℤ)
    → k.tasks b ≡ some tb
    → Holds tb.send_listeners_queue []
    → (slab_alloc receive_state k.slabs).0 ≡ found slot
    → Ends (svc_receive tid msg room b k) λ _ k'.
      (k'.memory ≡ k.memory)
      × (k'.slabs ≡ (slab_alloc receive_state k.slabs).1)
      × (k'.tasks b
          ≡ some (record tb {
            status = receive_wait;
            receive_state = some (record {
              slot = slot;
              receive_buffer = msg;
              receive_buffer_len = room;
              sender_tid = tid;
            });
          }))
      × ((c : ℕ) → c ≢ b → k'.tasks c ≡ k.tasks c)
unfolding svc_receive alloc Defs.length
receive_from_none k b tb slot tid msg room eb q el = ground arith

-- Reply copies as many bytes as the sender's buffer takes, gives both sides their number, and makes
-- the sender ready with no message under way.
pub reply_to_waiting :
    (k : Kernel) (a : ℕ) (ta : TaskDescriptor) (s : SendState) (reply n room : ℕ)
    → 0 < a
    → a < 128
    → k.tasks a ≡ some ta
    → ta.status ≡ reply_wait
    → ta.send_state ≡ some s
    → s.reply_buffer_len ≡ pos room
    → Ends (svc_reply (pos a) reply (pos n) k) λ v k'.
      (v ≡ pos (min n room))
      × (k'.memory ≡ memcpy s.reply_buffer reply (min n room) k.memory)
      × (k'.slabs ≡ slab_free (some s.slot) send_state k.slabs)
      × (k'.tasks a
          ≡ some (record ta {
            status = ready;
            send_state = none;
            switch_frame = record (ta.switch_frame) {
              x = update ta.switch_frame.x 0 (min n room % 2 ^ 64);
            };
          }))
      × ((c : ℕ) → c ≢ a → k'.tasks c ≡ k.tasks c)
unfolding svc_reply
reply_to_waiting k a ta s reply n room a0 a1 ea ew es el = ground arith
