-- ===== src/Kern/Ipc/Deliver.antt =====
-- The states of the two sides of a message.
use choochoo_os.Base.{ℕ, ◌%◌, ◌^◌, none, some, update}
use choochoo_os.Memory.{memcpy, store_int}
use choochoo_os.Kern.State.{ready, reply_wait, TaskDescriptor, SendState}

-- A receiver that got `len` bytes, and whose call of Receive returns.
abbrev pub received : ℕ → TaskDescriptor → TaskDescriptor
received len t = record t {
  status = ready;
  receive_state = none;
  switch_frame = record (t.switch_frame) { x = update t.switch_frame.x 0 (len % 2 ^ 64) };
}

-- A sender whose message went over, and who waits for a reply of at most `rplen` bytes.
abbrev pub awaiting_reply : SendState → TaskDescriptor → TaskDescriptor
awaiting_reply s t = record t { status = reply_wait; send_state = some s }

-- User memory once `len` bytes of a message and its sender's number have gone to the receiver.
abbrev pub delivered : ℕ → ℕ → ℕ → ℕ → ℕ → (ℕ → ℕ) → ℕ → ℕ
delivered buffer msg len sender_tid tid m = store_int sender_tid tid (memcpy buffer msg len m)
