-- ===== src/Kern/Ipc.antt =====
-- kern/svc_helpers.c: creation, the choice of the next task, and the messages between tasks.
pub mod Deliver
pub mod Send
pub mod Receive
pub mod Rendezvous
pub mod Exchange
pub mod Refusals
use choochoo_os.Base.{
  ℕ, ◌+◌, ◌-◌, ◌%◌, ◌^◌, Bool, true, false, not, ◌||◌, Option, none, some, ltb, leb, ◌==◌,
  if◌then◌else◌, update,
}
use choochoo_os.Base.Int.{ℤ, pos, negsuc, ltb_ℤ, eqb_ℤ, min_ℤ, to_u64}
use choochoo_os.Memory.{memcpy, store_int}
use choochoo_os.ByteQueue.Defs
use choochoo_os.ByteQueue.Defs.{BQueue}
use choochoo_os.Kern.Kalloc.{send_state, receive_state}
use choochoo_os.Kern.State.{
  SwitchFrame, TaskStatus, running, ready, send_wait, receive_wait, reply_wait, event_wait,
  EventType, event_none, event_clock_tick, event_marklin_receive, event_marklin_send,
  event_console_receive, event_console_send, event_task_finished, status_is, TaskDescriptor,
  SendState, ReceiveState, Kernel, Run, ok, fault, hang, M, pure, ◌>>=◌, ◌>>◌, then_run, deref,
  modify, reads, task_at, modify_task, alloc, release, IdlePerf,
}
use choochoo_os.Kern.Task.{get_task, create_task, set_task_status, set_current_task, index_of}
use choochoo_os.Kern.Scheduler.{num_priority_levels, scheduler_add_task, scheduler_next_task}

-- kern/idle-perf.c, at the timer's reading `now`. Times are `uint64_t`.
unfoldable pub idle_timer_start_logic : ℕ → ℕ → M (Unit {0})
idle_timer_start_logic now tid = modify λ k. record k {
  idle =
      if eqb_ℤ (pos tid) k.idle.idle_tid then record (k.idle) { last_idle_time = now } else k.idle;
}

unfoldable pub idle_timer_stop_logic : ℕ → ℕ → M (Unit {0})
idle_timer_stop_logic now tid = modify λ k. record k {
  idle =
      if eqb_ℤ (pos tid) k.idle.idle_tid
      then record (k.idle) {
        total_idle_time =
            (k.idle.total_idle_time + (now + 2 ^ 64 - k.idle.last_idle_time)) % 2 ^ 64;
      }
      else k.idle;
}

abbrev pub set_x0 : ℤ → TaskDescriptor → TaskDescriptor
set_x0 v t = record t {
  switch_frame = record (t.switch_frame) { x = update t.switch_frame.x 0 (to_u64 v) };
}

-- `memcpy` with an `int` for its size: a negative one becomes a size that no memory holds.
abbrev pub copy : ℕ → ℕ → ℤ → M (Unit {0})
copy dest src (pos n) k = ok tt (record k { memory = memcpy dest src n k.memory })
copy dest src (negsuc n) k = fault

-- A new task goes into its priority's queue.
unfoldable pub schedule : ℕ → ℕ → M ℤ
schedule tid priority = do _ ← scheduler_add_task tid priority; pure (pos tid)

unfoldable pub svc_create : ℕ → ℕ → M ℤ
unfolding schedule
svc_create priority entrypoint = do
  new_tid ←
      (if ltb priority num_priority_levels
        then create_task priority entrypoint
        else pure (negsuc 0))
  elim new_tid [
    | negsuc n ↦ pure (negsuc n)
    | pos n ↦ if ltb 0 n then schedule n priority else pure (pos n)
  ]

-- The task to run next, and the frame that `enter_usermode` restores. With no task left the kernel
-- loops for ever.
unfoldable pub svc_yield : ℕ → M SwitchFrame
unfolding set_current_task
svc_yield now = do
  next ← scheduler_next_task
  let run : M SwitchFrame = do
    set_current_task next
    idle_timer_start_logic now next
    tasks ← reads (λ k. k.tasks)
    t ← deref (get_task (pos next) tasks)
    pure t.switch_frame
  if next == 0 then (λ k. hang) else run

-- The receiver does not wait: the sender blocks and queues up.
unfoldable pub send_first : ℕ → ℕ → ℤ → ℕ → M ℤ
unfolding set_task_status
send_first receiver msg msglen sender = do
  set_task_status sender send_wait
  me ← task_at sender
  modify_task receiver
      λ t. record t { send_listeners_queue = (Defs.push t.send_listeners_queue (me.tid % 2 ^ 8)).0 }
  after ← task_at sender
  s ← deref after.send_state
  modify_task sender
      λ t. record t { send_state = some (record s { send_buffer = msg; send_buffer_len = msglen }) }
  pure (pos 0)

-- The receiver waits: the message goes over at once.
unfoldable pub send_now : ℕ → ReceiveState → ℕ → ℤ → ℕ → M ℤ
unfolding set_task_status
send_now receiver r msg msglen sender = do
  set_task_status receiver ready
  set_task_status sender reply_wait
  let copylen = min_ℤ msglen r.receive_buffer_len
  copy r.receive_buffer msg copylen
  modify_task receiver (set_x0 copylen)
  me ← task_at sender
  modify (λ k. record k { memory = store_int r.sender_tid me.tid k.memory })
  release (some r.slot) receive_state
  modify_task receiver (λ t. record t { receive_state = none })
  pure (pos 0)

-- The branch on the receiver, once the sender has its send state in block `slot`.
unfoldable pub dispatch_send : ℕ → ℕ → ℕ → ℤ → ℕ → M ℤ
dispatch_send slot receiver msg msglen sender = do
  t ← task_at receiver
  let refuse : M ℤ = do
    release (some slot) send_state
    modify_task sender (λ t. record t { send_state = none })
    pure (negsuc 1)
  if not (status_is t.status receive_wait)
      then send_first receiver msg msglen sender
      else elim t.receive_state [ none ↦ refuse | some r ↦ send_now receiver r msg msglen sender ]

-- The sender's send state, before the branch on the receiver fills in the message.
abbrev pub sending : ℕ → ℕ → ℤ → TaskDescriptor → TaskDescriptor
sending slot reply rplen t = record t {
  send_state = some (record {
    slot = slot;
    reply_buffer = reply;
    reply_buffer_len = rplen;
    send_buffer = 0;
    send_buffer_len = pos 0;
  });
}

-- `curr` is the index of the current task, the sender.
unfoldable pub svc_send : ℤ → ℕ → ℤ → ℕ → ℤ → ℕ → M ℤ
unfolding get_task
svc_send tid msg msglen reply rplen curr = do
  tasks ← reads (λ k. k.tasks)
  me ← task_at curr
  let start : M ℤ = do
    p ← alloc send_state
    slot ← deref p
    modify_task curr (sending slot reply rplen)
    dispatch_send slot (index_of tid) msg msglen curr
  elim (get_task tid tasks) [
    | none ↦ pure (negsuc 0)
    | some _ ↦ elim me.send_state [ some _ ↦ pure (negsuc 1) | none ↦ start ]
  ]

-- A sender waits already: its message comes over, and it goes on to wait for the reply.
unfoldable pub receive_now : ℕ → ℕ → ℤ → ℕ → M (Unit {0})
unfolding get_task set_task_status
receive_now tid msg msg_len curr = do
  me ← task_at curr
  let (sender, queue) = Defs.pop me.send_listeners_queue
  modify_task curr (λ t. record t { send_listeners_queue = queue })
  tasks ← reads (λ k. k.tasks)
  t ← deref (get_task (pos sender) tasks)
  set_task_status sender reply_wait
  s ← deref t.send_state
  let copylen = min_ℤ s.send_buffer_len msg_len
  copy msg s.send_buffer copylen
  modify_task curr (set_x0 copylen)
  modify (λ k. record k { memory = store_int tid sender k.memory })

-- Nobody waits: the receiver blocks.
unfoldable pub receive_first : ℕ → ℕ → ℤ → ℕ → M (Unit {0})
unfolding set_task_status
receive_first tid msg msg_len curr = do
  set_task_status curr receive_wait
  p ← alloc receive_state
  slot ← deref p
  modify_task curr λ t. record t {
    receive_state = some (record {
      slot = slot;
      receive_buffer = msg;
      receive_buffer_len = msg_len;
      sender_tid = tid;
    });
  }

unfoldable pub svc_receive : ℕ → ℕ → ℤ → ℕ → M (Unit {0})
unfolding receive_now receive_first
svc_receive tid msg msg_len curr = do
  me ← task_at curr
  if not (eqb_ℤ (Defs.length me.send_listeners_queue) (pos 0))
      then receive_now tid msg msg_len curr
      else receive_first tid msg msg_len curr

unfoldable pub svc_reply : ℤ → ℕ → ℤ → M ℤ
unfolding get_task set_task_status
svc_reply tid reply rplen = do
  tasks ← reads (λ k. k.tasks)
  let answer : TaskDescriptor → M ℤ = λ sender. do
    set_task_status (index_of tid) ready
    s ← deref sender.send_state
    let copylen = min_ℤ rplen s.reply_buffer_len
    copy s.reply_buffer reply copylen
    release (some s.slot) send_state
    modify_task (index_of tid) (λ t. record t { send_state = none })
    modify_task (index_of tid) (set_x0 copylen)
    pure copylen
  elim (get_task tid tasks) [
    | none ↦ pure (negsuc 0)
    | some sender ↦
        if not (status_is sender.status reply_wait) then pure (negsuc 1) else answer sender
  ]

-- The events by number. The guard of the source is `eventId <= EVENT_NONE || EVENT_MAX <= eventId`.
abbrev pub event_of : ℕ → Option EventType
event_of n =
    if n == 1
    then some event_clock_tick
    else if n == 2
    then some event_marklin_receive
    else if n == 3
    then some event_marklin_send
    else if n == 4
    then some event_console_receive
    else if n == 5
    then some event_console_send
    else if n == 6
    then some event_task_finished
    else none

unfoldable pub wait_for : EventType → ℕ → M ℤ
wait_for e curr = do
  modify_task curr (λ t. record t { status = event_wait; event_wait_type = e })
  pure (pos 0)

unfoldable pub svc_await_event : ℤ → ℕ → M ℤ
unfolding wait_for
svc_await_event (negsuc n) curr = pure (negsuc 0)
svc_await_event (pos n) curr = elim (event_of n) [
  | none ↦ pure (negsuc 0)
  | some e ↦ wait_for e curr
]
