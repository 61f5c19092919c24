-- ===== src/Kern/Tests.antt =====
-- The kernel's theorems at a small kernel.
use choochoo_os.Base.{
  ℕ, ◌%◌, ◌<◌, ◌≡◌, refl, false, Option, none, some, List, [], ◌∷◌, arith, All, Bool-cases, inl,
  inr, ◌==◌, ltb, if◌then◌else◌, update,
}
use choochoo_os.Base.Int.{pos, negsuc}
use choochoo_os.ByteQueue.Defs
use choochoo_os.ByteQueue.Refine.{new_byte_queue-Holds}
use choochoo_os.Kern.Kalloc.{SlabAllocator, code, send_state, slab_alloc, scan_blocks}
use choochoo_os.Kern.AddrSpace.Pages.{page}
use choochoo_os.Kern.State.{
  TaskStatus, running, ready, reply_wait, event_none, TaskDescriptor, SchedulerNode, SendState,
  Kernel, Ends, ok,
}
use choochoo_os.Kern.Task.{get_task}
use choochoo_os.Kern.Scheduler.{scheduler_next_task, is_runnable}
use choochoo_os.Kern.Scheduler.Choice.{FirstRunnable, IsBlocked, scheduler_next_task_first}
use choochoo_os.Kern.Ipc.{svc_send, svc_receive, svc_reply}
use choochoo_os.Kern.Ipc.Rendezvous.{Exchanged, rendezvous}
use choochoo_os.Kern.Ipc.Refusals.{Same, svc_send_refused}
use choochoo_os.Kern.Ipc.Exchange.{Completed, exchange_completes}
use choochoo_os.Kern.Kalloc.Blocks.{IsSlab}

abbrev slabs : SlabAllocator
slabs at = record { block_size = 20000; in_use = λ _. false }

abbrev node : ℕ → SchedulerNode
node n = record { slot = n; tid = n; priority = 4 }

abbrev a_task : ℕ → TaskStatus → Option SendState → TaskDescriptor
a_task n s sending = record {
  slot = n;
  frame_slot = n;
  switch_frame = record { x = λ _. 0; elr_el1 = 0; spsr_el1 = 0; sp_el0 = 0 };
  tid = n;
  p_tid = 0;
  status = s;
  pri = 4;
  addrspace = page n;
  send_listeners_queue = Defs.new_byte_queue;
  send_state = sending;
  receive_state = none;
  event_wait_type = event_none;
}

abbrev request : SendState
request = record {
  slot = 0;
  reply_buffer = 100;
  reply_buffer_len = pos 4;
  send_buffer = 0;
  send_buffer_len = pos 0;
}

-- Task 1 runs, task 2 is ready and stands behind task 3, which waits for a reply.
abbrev tasks : ℕ → Option TaskDescriptor
tasks n =
    if n == 1
    then some (a_task 1 running none)
    else if n == 2
    then some (a_task 2 ready none)
    else if n == 3
    then some (a_task 3 reply_wait (some request))
    else none

abbrev kernel : (ℕ → List SchedulerNode) → Kernel
kernel queues = record {
  tasks = tasks;
  next_tid = 4;
  current_task = 1;
  mlfq = queues;
  slabs = slabs;
  pagetable = record { in_use = λ i. ltb i 4; address = 0xa0000 };
  idle = record { start_time = 0; total_idle_time = 0; last_idle_time = 0; idle_tid = negsuc 0 };
  memory = λ a. a % 256;
  task_exit = 0x80000;
}

abbrev queues : ℕ → List SchedulerNode
queues i = if i == 4 then node 3 ∷ node 2 ∷ node 1 ∷ [] else []

abbrev blocked : ℕ → List SchedulerNode
blocked i = if i == 4 then node 3 ∷ [] else []

first : FirstRunnable tasks (queues 4)
unfolding get_task is_runnable
first = record {
  blocked = node 3 ∷ [];
  first = node 2;
  behind = node 1 ∷ [];
  parts = refl;
  before = ((a_task 3 reply_wait (some request), refl, refl), tt);
  runs = (a_task 2 ready none, refl, refl);
}

queues_above : (l : ℕ) → l < 4 → queues l ≡ []
queues_above l lt = ground arith

third-IsBlocked : IsBlocked tasks (node 3)
unfolding get_task is_runnable
third-IsBlocked = (a_task 3 reply_wait (some request), refl, refl)

blocked-IsBlocked : (l : ℕ) → All (IsBlocked tasks) (blocked l)
blocked-IsBlocked l = elim (Bool-cases (l == 4)) [
  | inl here ↦ rw here (third-IsBlocked, tt)
  | inr away ↦ rw away tt
]

scheduler_next_task_first_example :
    scheduler_next_task (kernel queues)
    ≡ ok 2 (kernel (update queues 4 (node 1 ∷ node 3 ∷ node 2 ∷ [])))
unfolding first
scheduler_next_task_first_example =
    scheduler_next_task_first (kernel queues) 4 (omega arith) (λ l. ground arith)
      (λ l lt. rw (queues_above l lt) tt) first

-- Task 1 sends 8 bytes at 200 to task 2, which takes 5 at 300.
rendezvous_example :
    (Ends (svc_send (pos 2) 200 (pos 8) 100 (pos 4) 1 (kernel queues)) λ _ k1.
      Ends
        (svc_receive 400 300 (pos 5) 2 k1)
        λ _ k2. Exchanged (kernel queues) 1 2 300 200 5 400 k2)
    × (Ends (svc_receive 400 300 (pos 5) 2 (kernel queues)) λ _ k1.
        Ends
          (svc_send (pos 2) 200 (pos 8) 100 (pos 4) 1 k1)
          λ _ k2. Exchanged (kernel queues) 1 2 300 200 5 400 k2)
unfolding slab_alloc scan_blocks
rendezvous_example =
    rendezvous (kernel queues) 1 2 (a_task 1 running none) (a_task 2 ready none) 300 5 400 200 8 100
      (pos 4) (omega arith) (omega arith) (omega arith) (omega arith) (omega arith) refl refl refl
      refl new_byte_queue-Holds 0 0 0 refl refl refl refl

slabs-IsSlab : IsSlab (slabs (code send_state))
slabs-IsSlab = record { sized = omega arith; aligned = λ i h. absurd (cc) }

-- Task 1 sends 8 bytes at 200 to task 2, which takes 5 at 300, and gets 4 of the 9 bytes at 500.
exchange_completes_example :
    Ends (svc_send (pos 2) 200 (pos 8) 100 (pos 4) 1 (kernel queues)) λ _ k1.
      Ends (svc_receive 400 300 (pos 5) 2 k1) λ _ k2.
        Ends (svc_reply (pos 1) 500 (pos 9) k2) λ v k3.
          (v ≡ pos 4)
          × Completed
              (kernel queues)
              1
              2
              (a_task 1 running none)
              (a_task 2 ready none)
              300
              200
              5
              400
              100
              500
              4
              k3
unfolding slab_alloc scan_blocks
exchange_completes_example =
    exchange_completes (kernel queues) 1 2 (a_task 1 running none) (a_task 2 ready none) 300 5 400
      200 8 100 4 500 9 0 (omega arith) (omega arith) (omega arith) (omega arith) (omega arith) refl
      refl refl refl new_byte_queue-Holds refl slabs-IsSlab refl

-- There is no task 200.
svc_send_refused_example : Same (kernel queues) (kernel queues)
unfolding svc_send get_task
svc_send_refused_example =
    svc_send_refused (kernel queues) (kernel queues) 1 (pos 200) 200 0 100 (pos 8) (pos 4) refl
