-- ===== src/Kern/Syscall.antt =====
-- kern/kern.c: the handlers of system calls and of interrupts, and kern/svc_helpers.c's first yield.
-- A handler ends in the frame that `enter_usermode` restores. The timer's readings and the state of
-- the interrupt controller and the UARTs are arguments.
use choochoo_os.Base.{ℕ, ◌%◌, ◌^◌, Bool, true, false, ◌==◌, if◌then◌else◌}
use choochoo_os.Base.Int.{ℤ, pos, ltb_ℤ, to_int}
use choochoo_os.Kern.State.{
  SwitchFrame, event_clock_tick, event_marklin_receive, event_marklin_send, event_console_receive,
  event_console_send, event_task_finished, M, pure, ◌>>=◌, ◌>>◌, deref, reads, task_at, modify_task,
}
use choochoo_os.Kern.Task.{get_current_task, delete_task}
use choochoo_os.Kern.Scheduler.{
  scheduler_delete_task, scheduler_unblock_event, scheduler_unblock_events,
}
use choochoo_os.Kern.Ipc.{
  idle_timer_stop_logic, set_x0, svc_create, svc_yield, svc_send, svc_receive, svc_reply,
  svc_await_event,
}

pub data Opcode : Type 0 where
  create my_tid my_parent_tid yield exit send receive reply await_event kill : Opcode
  unknown : Opcode

abbrev pub opcode_of : ℕ → Opcode
opcode_of n =
    if n == 0
    then create
    else if n == 1
    then my_tid
    else if n == 2
    then my_parent_tid
    else if n == 3
    then yield
    else if n == 4
    then exit
    else if n == 5
    then send
    else if n == 6
    then receive
    else if n == 7
    then reply
    else if n == 8
    then await_event
    else if n == 9
    then kill
    else unknown

-- A register of the current task.
abbrev pub register : ℕ → ℕ → M ℕ
register curr n = do t ← task_at curr; pure (t.switch_frame.x n)

abbrev pub answer : ℕ → ℤ → M (Unit {0})
answer curr v = modify_task curr (set_x0 v)

-- A task ends: those that wait for an end wake with its number, and its node and descriptor go.
unfoldable pub kill_task : ℕ → M (Unit {0})
kill_task curr = do
  a ← register curr 0
  scheduler_unblock_event event_task_finished (to_int a)
  b ← register curr 0
  scheduler_delete_task (to_int b)
  c ← register curr 0
  delete_task (to_int c)

-- The work of a call before the next task is chosen; `curr` is the index of the current task.
unfoldable pub system_call : Opcode → ℕ → M (Unit {0})
unfolding kill_task
system_call create curr = do
  priority ← register curr 0
  entrypoint ← register curr 1
  tid ← svc_create (priority % 2 ^ 32) entrypoint
  answer curr tid
system_call my_tid curr = do id ← reads (λ k. k.current_task); answer curr (pos id)
system_call my_parent_tid curr = do t ← task_at curr; answer curr (pos t.p_tid)
system_call yield curr = pure tt
system_call exit curr = do
  t ← task_at curr
  scheduler_unblock_event event_task_finished (pos t.tid)
  scheduler_delete_task (pos t.tid)
  delete_task (pos t.tid)
system_call kill curr = kill_task curr
system_call send curr = do
  tid ← register curr 0
  msg ← register curr 1
  msglen ← register curr 2
  buffer ← register curr 3
  rplen ← register curr 4
  ret ← svc_send (to_int tid) msg (to_int msglen) buffer (to_int rplen) curr
  if ltb_ℤ ret (pos 0) then answer curr ret else pure tt
system_call receive curr = do
  tid ← register curr 0
  msg ← register curr 1
  msg_len ← register curr 2
  svc_receive tid msg (to_int msg_len) curr
system_call reply curr = do
  tid ← register curr 0
  msg ← register curr 1
  rplen ← register curr 2
  ret ← svc_reply (to_int tid) msg (to_int rplen)
  answer curr ret
system_call await_event curr = do
  event_id ← register curr 0
  ret ← svc_await_event (to_int event_id) curr
  answer curr ret
system_call unknown curr = pure tt

-- `esr` is the exception syndrome, `stop` and `start` the timer's readings. Every call ends in
-- `svc_yield`, EXIT in the same lines.
unfoldable pub handle_svc : ℕ → ℕ → ℕ → M SwitchFrame
unfolding get_current_task
handle_svc esr stop start = do
  curr ← reads (λ k. k.current_task)
  current ← reads get_current_task
  t ← deref current
  idle_timer_stop_logic stop t.tid
  system_call (opcode_of (esr % 2 ^ 25)) curr
  svc_yield start

-- What the UARTs report: the pending interrupts, and the two clear-to-send lines.
pub record Uarts : Type 0 where
  pub marklin_cts_interrupt : Bool
  pub marklin_cts : Bool
  pub marklin_rx_interrupt : Bool
  pub console_tx_interrupt : Bool
  pub console_cts : Bool
  pub console_rx_interrupt : Bool

abbrev pub when : Bool → M (Unit {0}) → M (Unit {0})
when true m = m
when false m = pure tt

unfoldable pub handle_uarts : Uarts → M (Unit {0})
handle_uarts u = do
  when u.marklin_cts_interrupt (when u.marklin_cts (scheduler_unblock_events event_marklin_send))
  when u.marklin_rx_interrupt (scheduler_unblock_events event_marklin_receive)
  when u.console_tx_interrupt (when u.console_cts (scheduler_unblock_events event_console_send))
  when u.console_rx_interrupt (scheduler_unblock_events event_console_receive)

-- `iar` is the interrupt acknowledged.
unfoldable pub handle_irq : ℕ → Uarts → ℕ → ℕ → M SwitchFrame
unfolding get_current_task handle_uarts
handle_irq iar u stop start = do
  current ← reads get_current_task
  t ← deref current
  idle_timer_stop_logic stop t.tid
  let id = iar % 2 ^ 10
  when (id == 97) (scheduler_unblock_events event_clock_tick)
  when (id == 153) (handle_uarts u)
  svc_yield start
