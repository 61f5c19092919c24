-- ===== src/Kern/Scheduler/Choice.antt =====
-- What `scheduler_next_task` chooses, and how it leaves the queues.
use mathlib.Core.Path.{fun_ext, subst}
use native.Mathlib.Nat.{zero-add, add-zero, suc-add}
use choochoo_os.Base.{
  ℕ, zero, suc, ◌+◌, ◌-◌, ◌<◌, ◌≡◌, refl, sym, ap, ◌∙◌, Bool, true, false, Option, some, update,
  List, [], ◌∷◌, ◌++◌, append-nil, append_assoc, length, length-append, All, arith,
}
use choochoo_os.Base.Int.{pos}
use choochoo_os.Kern.State.{TaskDescriptor, SchedulerNode, Kernel, ok}
use choochoo_os.Kern.Task.{get_task}
use choochoo_os.Kern.Scheduler.{
  is_runnable, run_task, no_task, next_in_level, next_from, scheduler_next_task, return_next,
  num_priority_levels,
}

abbrev pub Tasks : Type 0
Tasks = ℕ → Option TaskDescriptor

-- The task of a node is there, and can run or cannot.
abbrev pub IsTask : Tasks → Bool → SchedulerNode → Type 0
IsTask tasks b n =
    (t : TaskDescriptor) × (get_task (pos n.tid) tasks ≡ some t) × (is_runnable t ≡ b)

abbrev pub IsBlocked : Tasks → SchedulerNode → Type 0
IsBlocked tasks = IsTask tasks false

abbrev pub IsRunnable : Tasks → SchedulerNode → Type 0
IsRunnable tasks = IsTask tasks true

module _ (tasks : Tasks) where
  -- A step over a blocked head turns the queue on.
  next_in_level_blocked :
      (fuel j : ℕ) (n : SchedulerNode) (ns : List SchedulerNode)
      → IsBlocked tasks n
      → j < length (n ∷ ns)
      → length (n ∷ ns) < 256
      → next_in_level tasks (suc fuel) j (n ∷ ns) ≡ next_in_level tasks fuel (j + 1) (ns ++ n ∷ [])
  unfolding next_in_level
  next_in_level_blocked fuel j n ns (t, e, b) lt small = ground arith

  next_in_level_runs :
      (fuel j : ℕ) (n : SchedulerNode) (ns : List SchedulerNode)
      → IsRunnable tasks n
      → j < length (n ∷ ns)
      → length (n ∷ ns) < 256
      → next_in_level tasks (suc fuel) j (n ∷ ns) ≡ run_task n.tid (ns ++ n ∷ [])
  unfolding next_in_level
  next_in_level_runs fuel j n ns (t, e, b) lt small = ground arith

  next_in_level_done :
      (fuel j : ℕ) (ns : List SchedulerNode)
      → length ns ≡ j
      → next_in_level tasks (suc fuel) j ns ≡ no_task ns
  unfolding next_in_level
  next_in_level_done fuel j [] e = refl
  next_in_level_done fuel j (n ∷ ns) e = ground arith

  -- Past the blocked nodes `pre` of a queue, with those already turned over at its end.
  next_in_level_pre :
      (pre rest turned : List SchedulerNode) (fuel j : ℕ)
      → All (IsBlocked tasks) pre
      → length turned ≡ j
      → length pre + length rest + length turned < 256
      → next_in_level tasks (length pre + fuel) j (pre ++ (rest ++ turned))
        ≡ next_in_level tasks fuel (j + length pre) (rest ++ (turned ++ pre))
  next_in_level_pre [] rest turned fuel j h e small = simp (append-nil, zero-add, add-zero)
  next_in_level_pre (n ∷ pre) rest turned fuel j h e small =
      let long = length-append pre (rest ++ turned) in
      let long' = length-append rest turned in
      let one = length-append turned (n ∷ []) in
      let later : j + 1 + length pre ≡ j + suc (length pre) = omega arith in
      let step =
        next_in_level_blocked (length pre + fuel) j n (pre ++ (rest ++ turned)) h.0 (omega arith)
          (omega arith) in
      let ih =
        next_in_level_pre pre rest (turned ++ n ∷ []) fuel (j + 1) h.1 (omega arith)
          (omega arith) in
      rw (
        suc-add (length pre) fuel,
        step,
        append_assoc pre (rest ++ turned),
        append_assoc rest turned,
        ih,
        append_assoc turned (n ∷ []) pre,
        later,
      )

-- The blocked nodes in front of the first that can run, and those behind it.
pub record FirstRunnable (tasks : Tasks) (nodes : List SchedulerNode) : Type 0 where
  pub blocked : List SchedulerNode
  pub first : SchedulerNode
  pub behind : List SchedulerNode
  pub parts : nodes ≡ blocked ++ first ∷ behind
  pub before : All (IsBlocked tasks) blocked
  pub runs : IsRunnable tasks first

-- The queue once its first runnable task has been chosen: that task stands last, and the blocked
-- ones that stood before it stand in front of it.
abbrev pub after_choice :
    {tasks : Tasks} {nodes : List SchedulerNode} → FirstRunnable tasks nodes → List SchedulerNode
after_choice f = f.behind ++ (f.blocked ++ f.first ∷ [])

module _ (tasks : Tasks) where
  past_blocked :
      (pre rest : List SchedulerNode) (fuel : ℕ)
      → All (IsBlocked tasks) pre
      → length pre + length rest < 256
      → next_in_level tasks (length pre + fuel) 0 (pre ++ rest)
        ≡ next_in_level tasks fuel (length pre) (rest ++ pre)
  past_blocked pre rest fuel h small =
      let turn = next_in_level_pre tasks pre rest [] fuel 0 h refl (omega arith) in
      rw (append-nil rest, zero-add) at turn

  next_in_level_first :
      (nodes : List SchedulerNode) (f : FirstRunnable tasks nodes)
      → length nodes < 256
      → next_in_level tasks 256 0 nodes ≡ run_task f.first.tid (after_choice f)
  next_in_level_first nodes f small =
      let long = length-append f.blocked (f.first ∷ f.behind) in
      let long' = length-append f.behind f.blocked in
      let split = ap length f.parts in
      let p : length f.blocked < 256 = omega arith in
      let fuel : length f.blocked + suc (255 - length f.blocked) ≡ 256 = omega arith in
      let turn =
        past_blocked f.blocked (f.first ∷ f.behind) (suc (255 - length f.blocked)) f.before
          (omega arith) in
      let run =
        next_in_level_runs tasks (255 - length f.blocked) (length f.blocked) f.first
          (f.behind ++ f.blocked) f.runs (omega arith) (omega arith) in
      subst (λ ns. next_in_level tasks 256 0 ns ≡ run_task f.first.tid (after_choice f))
        (sym f.parts)
        (subst
          (λ g.
            next_in_level tasks g 0 (f.blocked ++ f.first ∷ f.behind)
            ≡ run_task f.first.tid (after_choice f))
          fuel
          (turn ∙ run ∙ ap (run_task f.first.tid) (append_assoc f.behind f.blocked (f.first ∷ []))))

  next_in_level_none :
      (nodes : List SchedulerNode)
      → All (IsBlocked tasks) nodes
      → length nodes < 256
      → next_in_level tasks 256 0 nodes ≡ no_task nodes
  next_in_level_none nodes h small =
      let fuel : length nodes + suc (255 - length nodes) ≡ 256 = omega arith in
      let turn = past_blocked nodes [] (suc (255 - length nodes)) h (omega arith) in
      subst (λ g. next_in_level tasks g 0 nodes ≡ no_task nodes) fuel
        ((rw (append-nil nodes) at turn)
          ∙ next_in_level_done tasks (255 - length nodes) (length nodes) nodes refl)

  update_same : (mlfq : ℕ → List SchedulerNode) (i : ℕ) → update mlfq i (mlfq i) ≡ mlfq
  update_same mlfq i = fun_ext λ j. ground arith

  next_from_step :
      (levels i : ℕ) (mlfq : ℕ → List SchedulerNode)
      → All (IsBlocked tasks) (mlfq i)
      → length (mlfq i) < 256
      → next_from tasks (suc levels) i mlfq ≡ next_from tasks levels (i + 1) mlfq
  unfolding next_from
  next_from_step levels i mlfq h small =
      rw (next_in_level_none (mlfq i) h small, next_from)
        (ap (next_from tasks levels (i + 1)) (update_same mlfq i))

  -- Levels with nothing to run are passed over.
  next_from_blocked :
      (levels i rest : ℕ) (mlfq : ℕ → List SchedulerNode)
      → ((l : ℕ) → length (mlfq l) < 256)
      → ((l : ℕ) → l < levels + i → All (IsBlocked tasks) (mlfq l))
      → next_from tasks (levels + rest) i mlfq ≡ next_from tasks rest (i + levels) mlfq
  next_from_blocked zero i rest mlfq small h = rw (zero-add, add-zero)
  next_from_blocked (suc levels) i rest mlfq small h =
      let later : i + 1 + levels ≡ i + suc levels = omega arith in
      rw (
        suc-add levels rest,
        next_from_step (levels + rest) i mlfq (h i (omega arith)) (small i),
        next_from_blocked levels (i + 1) rest mlfq small (λ l lt. h l (omega arith)),
        later,
      )

  next_from_end : (i : ℕ) (mlfq : ℕ → List SchedulerNode) → next_from tasks 0 i mlfq ≡ no_task mlfq
  unfolding next_from
  next_from_end i mlfq = refl

  next_from_first :
      (levels i : ℕ) (mlfq : ℕ → List SchedulerNode) (f : FirstRunnable tasks (mlfq i))
      → length (mlfq i) < 256
      → next_from tasks (suc levels) i mlfq ≡ run_task f.first.tid (update mlfq i (after_choice f))
  unfolding next_from
  next_from_first levels i mlfq f small = rw (next_in_level_first (mlfq i) f small, next_from)

-- The scheduler runs the first runnable task of the most urgent level that has one, moves it to the
-- end of its level behind the blocked tasks that stood before it, and changes nothing else. The levels
-- above hold tasks that cannot run, and no level holds 256 tasks or more.
pub scheduler_next_task_first :
    (k : Kernel) (i : ℕ)
    → i < num_priority_levels
    → ((l : ℕ) → length (k.mlfq l) < 256)
    → ((l : ℕ) → l < i → All (IsBlocked k.tasks) (k.mlfq l))
    → (f : FirstRunnable k.tasks (k.mlfq i))
    → scheduler_next_task k ≡ ok f.first.tid (record k { mlfq = update k.mlfq i (after_choice f) })
unfolding scheduler_next_task
scheduler_next_task_first k i lt small above f =
    let levels : i + suc (31 - i) ≡ 32 = omega arith in
    let start =
      next_from_blocked k.tasks i 0 (suc (31 - i)) k.mlfq small (λ l p. above l (omega arith)) in
    let found = next_from_first k.tasks (31 - i) i k.mlfq f (small i) in
    ap (return_next k) (
      subst
        (λ n.
          next_from k.tasks n 0 k.mlfq ≡ run_task f.first.tid (update k.mlfq i (after_choice f)))
        levels ((rw zero-add at start) ∙ found))

-- With no runnable task at any level the scheduler gives 0 and changes nothing.
pub scheduler_next_task_none :
    (k : Kernel)
    → ((l : ℕ) → length (k.mlfq l) < 256)
    → ((l : ℕ) → l < num_priority_levels → All (IsBlocked k.tasks) (k.mlfq l))
    → scheduler_next_task k ≡ ok 0 k
unfolding scheduler_next_task
scheduler_next_task_none k small h = ap (return_next k) (
    next_from_blocked k.tasks num_priority_levels 0 0 k.mlfq small (λ l p. h l p)
    ∙ next_from_end k.tasks num_priority_levels k.mlfq)
