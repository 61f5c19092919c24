-- ===== src/Kern/State.antt =====
-- The kernel's data (kern/task_descriptor.h, kern/switchframe.h, kern/scheduler.h, the static
-- variables of kern/*.c) and the monad of its operations.
-- A task descriptor is pointed to by its entry of the task list only, so a pointer to it is the
-- index of that entry. Each object of a slab carries the slab offset of its block, `slot`.
use choochoo_os.Base.{ℕ, Bool, Option, none, some, ◌==◌, List, update}
use choochoo_os.Base.Int.{ℤ}
use choochoo_os.ByteQueue.Defs.{BQueue}
use choochoo_os.Kern.Kalloc.{
  AllocationType, SlabAllocator, found, exhausted, unfinished, slab_alloc, slab_free,
}
use choochoo_os.Kern.AddrSpace.{AddrSpace, PageTable}

-- The registers x0 to x30, and the special registers that the source names.
pub record SwitchFrame : Type 0 where
  pub x : ℕ → ℕ
  pub elr_el1 : ℕ
  pub spsr_el1 : ℕ
  pub sp_el0 : ℕ

pub data TaskStatus : Type 0 where
  running ready finished error send_wait receive_wait reply_wait event_wait : TaskStatus

abbrev pub status_code : TaskStatus → ℕ
status_code running = 0
status_code ready = 1
status_code finished = 2
status_code error = 3
status_code send_wait = 4
status_code receive_wait = 5
status_code reply_wait = 6
status_code event_wait = 7

-- EVENT_MAX is the bound 7 of the numbers, and no task waits for it.
pub data EventType : Type 0 where
  event_none event_clock_tick event_marklin_receive event_marklin_send : EventType
  event_console_receive event_console_send event_task_finished : EventType

abbrev pub event_code : EventType → ℕ
event_code event_none = 0
event_code event_clock_tick = 1
event_code event_marklin_receive = 2
event_code event_marklin_send = 3
event_code event_console_receive = 4
event_code event_console_send = 5
event_code event_task_finished = 6

abbrev pub status_is : TaskStatus → TaskStatus → Bool
status_is s t = status_code s == status_code t

abbrev pub event_is : EventType → EventType → Bool
event_is e f = event_code e == event_code f

-- The lengths come from an `int`, go through `size_t` and are read back as an `int`.
pub record SendState : Type 0 where
  pub slot : ℕ
  pub reply_buffer : ℕ
  pub reply_buffer_len : ℤ
  pub send_buffer : ℕ
  pub send_buffer_len : ℤ

-- `sender_tid` is the address that the sender's number goes to.
pub record ReceiveState : Type 0 where
  pub slot : ℕ
  pub receive_buffer : ℕ
  pub receive_buffer_len : ℤ
  pub sender_tid : ℕ

pub record TaskDescriptor : Type 0 where
  pub slot : ℕ
  pub frame_slot : ℕ
  pub switch_frame : SwitchFrame
  pub tid : ℕ
  pub p_tid : ℕ
  pub status : TaskStatus
  pub pri : ℕ
  pub addrspace : AddrSpace
  pub send_listeners_queue : BQueue
  pub send_state : Option SendState
  pub receive_state : Option ReceiveState
  pub event_wait_type : EventType

pub record SchedulerNode : Type 0 where
  pub slot : ℕ
  pub tid : ℕ
  pub priority : ℕ

-- kern/idle-perf.c
pub record IdlePerf : Type 0 where
  pub start_time : ℕ
  pub total_idle_time : ℕ
  pub last_idle_time : ℕ
  pub idle_tid : ℤ

-- `tasks` and `next_tid` are the task list; `mlfq` gives the tasks of each priority level, the head
-- of its linked list first; `memory` holds the bytes of user memory; `task_exit` is the address of
-- USER_TASK_EXIT.
pub record Kernel : Type 0 where
  pub tasks : ℕ → Option TaskDescriptor
  pub next_tid : ℕ
  pub current_task : ℕ
  pub mlfq : ℕ → List SchedulerNode
  pub slabs : SlabAllocator
  pub pagetable : PageTable
  pub idle : IdlePerf
  pub memory : ℕ → ℕ
  pub task_exit : ℕ

-- A kernel operation ends with a result, dereferences null or writes outside a table (`fault`), or
-- never ends (`hang`).
pub data Run (A : Type 0) : Type 0 where
  ok : A → Kernel → Run A
  fault : Run A
  hang : Run A

abbrev pub M : Type 0 → Type 0
M A = Kernel → Run A

abbrev pub pure : {A : Type 0} → A → M A
pure a k = ok a k

abbrev pub then_run : {A B : Type 0} → Run A → (A → M B) → Run B
then_run (ok a k) f = f a k
then_run fault f = fault
then_run hang f = hang

infixl 5 ◌>>=◌ ◌>>◌
abbrev pub ◌>>=◌ : {A B : Type 0} → M A → (A → M B) → M B
◌>>=◌ m f k = then_run (m k) f

abbrev pub ◌>>◌ : {B : Type 0} → M (Unit {0}) → M B → M B
m >> n = m >>= λ _. n

abbrev pub deref : {A : Type 0} → Option A → M A
deref none k = fault
deref (some a) k = ok a k

abbrev pub modify : (Kernel → Kernel) → M (Unit {0})
modify f k = ok tt (f k)

abbrev pub reads : {A : Type 0} → (Kernel → A) → M A
reads f k = ok (f k) k

-- The descriptor at an index, and a write through a pointer to it.
abbrev pub task_at : ℕ → M TaskDescriptor
task_at n k = deref (k.tasks n) k

abbrev pub set_task : ℕ → TaskDescriptor → M (Unit {0})
set_task n t = modify (λ k. record k { tasks = update k.tasks n (some t) })

abbrev pub modify_task : ℕ → (TaskDescriptor → TaskDescriptor) → M (Unit {0})
modify_task n f = do t ← task_at n; set_task n (f t)

-- `slab_alloc` and `slab_free` on the kernel's slabs.
unfoldable pub alloc : AllocationType → M (Option ℕ)
alloc at k =
    let (r, s) = slab_alloc at k.slabs in
    elim r [
      | found i ↦ ok (some i) (record k { slabs = s })
      | exhausted ↦ ok none (record k { slabs = s })
      | unfinished ↦ hang
    ]

abbrev pub release : Option ℕ → AllocationType → M (Unit {0})
release p at = modify (λ k. record k { slabs = slab_free p at k.slabs })

-- The operation ends, with a result and a kernel for which `P` holds.
abbrev pub Ends : {A : Type 0} → Run A → (A → Kernel → Type 0) → Type 0
Ends (ok a k) P = P a k
Ends fault P = ⊥
Ends hang P = ⊥

pub Ends_mono :
    {A : Type 0} {P Q : A → Kernel → Type 0} (r : Run A)
    → ((a : A) (k : Kernel) → P a k → Q a k)
    → Ends r P
    → Ends r Q
Ends_mono (ok a k) f p = f a k p
Ends_mono fault f p = p
Ends_mono hang f p = p
