-- ===== src/Kern/Scheduler.antt =====
-- kern/scheduler.c: one queue of tasks for each of the 32 priority levels.
pub mod Choice
use choochoo_os.Base.{
  ℕ, zero, suc, ◌+◌, ◌%◌, Bool, true, false, ◌||◌, not, Option, none, some, ltb, ◌==◌,
  if◌then◌else◌, update, List, [], ◌∷◌, ◌++◌, length,
}
use choochoo_os.Base.Int.{ℤ, pos, negsuc, eqb_ℤ, to_u64}
use choochoo_os.Kern.Kalloc.{scheduler_node}
use choochoo_os.Kern.State.{
  TaskStatus, running, ready, event_wait, EventType, event_none, status_is, event_is,
  TaskDescriptor, SchedulerNode, Kernel, Run, ok, fault, M, pure, ◌>>=◌, ◌>>◌, then_run, deref,
  modify, alloc, release, reads,
}
use choochoo_os.Kern.Task.{get_task}

abbrev pub num_priority_levels : ℕ
num_priority_levels = 32

-- `uint8_t`
abbrev pub scheduler_count_tasks : List SchedulerNode → ℕ
scheduler_count_tasks nodes = length nodes % 256

-- The parameter is a `uint8_t`. A failed allocation is written through.
unfoldable pub scheduler_add_task : ℕ → ℕ → M ℤ
scheduler_add_task tid priority32 = do
  let priority = priority32 % 256
  let add : M ℤ = do
    p ← alloc scheduler_node
    slot ← deref p
    modify λ k. record k {
      mlfq =
          update k.mlfq priority
            (k.mlfq priority ++ record { slot = slot; tid = tid; priority = priority } ∷ []);
    }
    pure (pos 0)
  if not (ltb priority num_priority_levels) then pure (negsuc 0) else add

unfoldable pub is_runnable : TaskDescriptor → Bool
is_runnable t = status_is t.status ready || status_is t.status running

-- What the loops of `scheduler_next_task` see: a task to run, none, or a null dereference; with the
-- queue or queues as they are then.
pub data Next (Q : Type 0) : Type 0 where
  run_task : ℕ → Q → Next Q
  no_task : Q → Next Q
  null_task : Next Q

module _ (tasks : ℕ → Option TaskDescriptor) where
  -- The inner loop over one level, with its counter `j`; the head moves to the end before it is
  -- looked at. The count is at most 255, so 256 rounds are enough.
  unfoldable pub next_in_level : ℕ → ℕ → List SchedulerNode → Next (List SchedulerNode)
  unfolding is_runnable get_task
  next_in_level zero j nodes = no_task nodes
  next_in_level (suc fuel) j [] = no_task []
  next_in_level (suc fuel) j (n ∷ ns) =
      let rest = next_in_level fuel (j + 1) (ns ++ n ∷ []) in
      if ltb j (scheduler_count_tasks (n ∷ ns))
      then elim (get_task (pos n.tid) tasks) [
        | none ↦ null_task
        | some t ↦ if is_runnable t then run_task n.tid (ns ++ n ∷ []) else rest
      ]
      else no_task (n ∷ ns)

  -- The outer loop, over the `levels` that are left from level `i` on.
  unfoldable pub next_from : ℕ → ℕ → (ℕ → List SchedulerNode) → Next (ℕ → List SchedulerNode)
  next_from zero i mlfq = no_task mlfq
  next_from (suc levels) i mlfq = elim (next_in_level 256 0 (mlfq i)) [
    | run_task tid nodes ↦ run_task tid (update mlfq i nodes)
    | no_task nodes ↦ next_from levels (i + 1) (update mlfq i nodes)
    | null_task ↦ null_task
  ]

-- 0 stands for no task.
abbrev pub return_next : Kernel → Next (ℕ → List SchedulerNode) → Run ℕ
return_next k (run_task tid mlfq) = ok tid (record k { mlfq = mlfq })
return_next k (no_task mlfq) = ok 0 (record k { mlfq = mlfq })
return_next k null_task = fault

unfoldable pub scheduler_next_task : M ℕ
scheduler_next_task k = return_next k (next_from k.tasks num_priority_levels 0 k.mlfq)

-- The first node of a task, and the queue without it.
unfoldable pub remove_node : ℤ → List SchedulerNode → Option (SchedulerNode × List SchedulerNode)
remove_node tid [] = none
remove_node tid (n ∷ ns) =
    let rest = remove_node tid ns in
    if eqb_ℤ (pos n.tid) tid
    then some (n, ns)
    else elim rest [ none ↦ none | some (m, ms) ↦ some (m, n ∷ ms) ]

-- A task that is in no queue is left alone.
unfoldable pub delete_from : ℕ → ℕ → ℤ → M (Unit {0})
unfolding remove_node
delete_from zero i tid k = ok tt k
delete_from (suc levels) i tid k = elim (remove_node tid (k.mlfq i)) [
  | some (n, ns) ↦ release (some n.slot) scheduler_node (record k { mlfq = update k.mlfq i ns })
  | none ↦ delete_from levels (i + 1) tid k
]

unfoldable pub scheduler_delete_task : ℤ → M (Unit {0})
unfolding delete_from
scheduler_delete_task tid = delete_from num_priority_levels 0 tid

-- What the two unblocking functions do to the task of a node.
abbrev pub waits_for : EventType → TaskDescriptor → Bool
waits_for e t = if status_is t.status event_wait then event_is t.event_wait_type e else false

-- The inner loop of both: the first `count` nodes of a level. `wake` is what it does to a task that
-- waits for the event.
unfoldable pub unblock_level :
    EventType
    → (TaskDescriptor → TaskDescriptor)
    → ℕ
    → List SchedulerNode
    → (ℕ → Option TaskDescriptor)
    → Option (ℕ → Option TaskDescriptor)
unfolding get_task
unblock_level e wake zero nodes tasks = some tasks
unblock_level e wake (suc count) [] tasks = none
unblock_level e wake (suc count) (n ∷ ns) tasks = elim (get_task (pos n.tid) tasks) [
  | none ↦ none
  | some t ↦
      unblock_level e wake count ns
        (if waits_for e t then update tasks n.tid (some (wake t)) else tasks)
]

unfoldable pub unblock_from : EventType → (TaskDescriptor → TaskDescriptor) → ℕ → ℕ → M (Unit {0})
unfolding unblock_level
unblock_from e wake zero i k = ok tt k
unblock_from e wake (suc levels) i k =
    elim (unblock_level e wake (scheduler_count_tasks (k.mlfq i)) (k.mlfq i) k.tasks) [
      | none ↦ fault
      | some tasks ↦ unblock_from e wake levels (i + 1) (record k { tasks = tasks })
    ]

abbrev pub wake_up : TaskDescriptor → TaskDescriptor
wake_up t = record t { status = ready; event_wait_type = event_none }

unfoldable pub scheduler_unblock_events : EventType → M (Unit {0})
unfolding unblock_from
scheduler_unblock_events e = unblock_from e wake_up num_priority_levels 0

abbrev pub wake_up_with : ℤ → TaskDescriptor → TaskDescriptor
wake_up_with value t = record t {
  status = ready;
  event_wait_type = event_none;
  switch_frame = record (t.switch_frame) { x = update t.switch_frame.x 0 (to_u64 value) };
}

-- Every task that waits for the event wakes, with the given number in x0.
unfoldable pub scheduler_unblock_event : EventType → ℤ → M (Unit {0})
unfolding unblock_from
scheduler_unblock_event e exited = unblock_from e (wake_up_with exited) num_priority_levels 0
