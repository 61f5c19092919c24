-- ===== src/Kern/Task.antt =====
-- kern/task_descriptor.c and kern/switchframe.c: the task list.
use choochoo_os.Base.{ℕ, ◌+◌, ◌&&◌, Option, none, some, ltb, ◌==◌, if◌then◌else◌, update}
use choochoo_os.Base.Int.{ℤ, pos, negsuc}
use choochoo_os.ByteQueue.Defs.{new_byte_queue}
use choochoo_os.Kern.Kalloc.{task, switch_frame}
use choochoo_os.Kern.AddrSpace.{AddrSpace, pagetable_createpage, pagetable_deletepage}
use choochoo_os.Kern.State.{
  SwitchFrame, TaskStatus, running, ready, finished, event_none, TaskDescriptor, Kernel, ok, fault,
  M, pure, ◌>>=◌, ◌>>◌, deref, modify, reads, modify_task, alloc, release,
}

abbrev pub task_size : ℕ
task_size = 128

-- All registers are 0 but the link register.
unfoldable pub switchframe_new : ℕ → ℕ → ℕ → SwitchFrame
switchframe_new task_exit sp entrypoint = record {
  x = λ n. if n == 30 then task_exit else 0;
  elr_el1 = entrypoint;
  spsr_el1 = 0;
  sp_el0 = sp;
}

-- A pointer to a task is its index, for which the list has an entry.
unfoldable pub get_task : ℤ → (ℕ → Option TaskDescriptor) → Option TaskDescriptor
get_task (negsuc n) tasks = none
get_task (pos n) tasks = if ltb 0 n && ltb n task_size then tasks n else none

unfoldable pub createpage : M AddrSpace
createpage k =
    let (space, pt) = pagetable_createpage k.pagetable in ok space (record k { pagetable = pt })

unfoldable pub deletepage : AddrSpace → M (Unit {0})
deletepage space k = elim (pagetable_deletepage space k.pagetable) [
  | some pt ↦ ok tt (record k { pagetable = pt })
  | none ↦ fault
]

-- The new descriptor, in block `slot`, with its frame in block `frame_slot`.
unfoldable pub new_task : ℕ → ℕ → ℕ → ℕ → AddrSpace → Kernel → TaskDescriptor
unfolding switchframe_new new_byte_queue
new_task slot frame_slot priority entrypoint space k = record {
  slot = slot;
  frame_slot = frame_slot;
  switch_frame = switchframe_new k.task_exit space.stackbase entrypoint;
  tid = k.next_tid;
  p_tid = k.current_task;
  status = ready;
  pri = priority;
  addrspace = space;
  send_listeners_queue = new_byte_queue;
  send_state = none;
  receive_state = none;
  event_wait_type = event_none;
}

-- The last lines: the number is taken and the descriptor entered.
unfoldable pub enter_task : ℕ → ℕ → ℕ → ℕ → AddrSpace → M ℤ
unfolding new_task
enter_task slot frame_slot priority entrypoint space k = ok (pos k.next_tid) (record k {
  next_tid = k.next_tid + 1;
  tasks = update k.tasks k.next_tid (some (new_task slot frame_slot priority entrypoint space k));
})

-- The descriptor's block is allocated after the frame's. If that fails the source frees the null
-- pointer that it got, and not the frame.
unfoldable pub create_descriptor : ℕ → ℕ → ℕ → AddrSpace → M ℤ
unfolding enter_task deletepage
create_descriptor frame_slot priority entrypoint space = do
  new ← alloc task
  let failed : M ℤ = do deletepage space; release none task; pure (negsuc 1)
  elim new [ none ↦ failed | some slot ↦ enter_task slot frame_slot priority entrypoint space ]

unfoldable pub create_task : ℕ → ℕ → M ℤ
unfolding create_descriptor createpage deletepage
create_task priority entrypoint = do
  next ← reads (λ k. k.next_tid)
  let create : M ℤ = do
    space ← createpage
    let create_frame : M ℤ = do
      frame ← alloc switch_frame
      let failed : M ℤ = do deletepage space; pure (negsuc 1)
      elim frame [
        | none ↦ failed
        | some frame_slot ↦ create_descriptor frame_slot priority entrypoint space
      ]
    if space.base == 0 && space.stackbase == 0 then pure (negsuc 1) else create_frame
  if next == task_size then pure (negsuc 1) else create

unfoldable pub set_task_status : ℕ → TaskStatus → M (Unit {0})
set_task_status n s = modify_task n (λ t. record t { status = s })

-- The argument is the result of `scheduler_next_task`.
unfoldable pub set_current_task : ℕ → M (Unit {0})
unfolding set_task_status get_task
set_current_task n = do
  tasks ← reads (λ k. k.tasks)
  t ← deref (get_task (pos n) tasks)
  set_task_status n running
  modify (λ k. record k { current_task = n })

unfoldable pub get_current_task_id : Kernel → ℕ
get_current_task_id k = k.current_task

unfoldable pub get_current_task : Kernel → Option TaskDescriptor
unfolding get_task get_current_task_id
get_current_task k = get_task (pos (get_current_task_id k)) k.tasks

abbrev pub index_of : ℤ → ℕ
index_of (pos n) = n
index_of (negsuc n) = 0

-- Setting the status of a task that is not there dereferences null.
unfoldable pub delete_task : ℤ → M (Unit {0})
unfolding get_task set_task_status deletepage
delete_task tid = do
  tasks ← reads (λ k. k.tasks)
  t ← deref (get_task tid tasks)
  set_task_status (index_of tid) finished
  release (some t.frame_slot) switch_frame
  deletepage t.addrspace
  release (some t.slot) task
  modify (λ k. record k { tasks = update k.tasks (index_of tid) none })
