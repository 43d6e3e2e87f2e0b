-- ===== src/Sched.antt =====
-- The scheduler of kernel/core/sched.c. `none` as a result is an access through a null pointer.
-- `sched_schedule` ends in the switch to the task that is then current; the state is the one at
-- that switch. The switch of registers and address space, the messages and the counter between
-- messages are not modelled.
pub mod Inv
pub mod Turn
pub mod Round
pub mod Signals
pub mod Twice
pub mod Samples
mod Tests
use punix.Base.{
  ℕ, suc, ◌+◌, ◌-◌, ◌%◌, ◌^◌, bit_or, Option, none, some, Bool, true, false, ◌&&◌, ◌||◌, ltb, ◌==◌,
  if◌then◌else◌, ◌>>=◌, update,
}
use punix.Base.Int.{ℤ, pos, negsuc}
use punix.Task.{State, Task}
use punix.TaskTable.{TaskTable, find_by_pid}
use punix.RunQueue.{RunQueue, Tasks, push, poll}

abbrev pub max_signals : ℕ
max_signals = 32

pub record Sched : Type 0 where
  pub current : Option ℕ
  pub ctxt : ℕ
  pub table : TaskTable
  pub run_queue : RunQueue
  pub swapper : Option ℕ

abbrev pub with_tasks : Sched → RunQueue → Tasks → Sched
with_tasks s rq tasks = record s { table = record s.table { tasks = tasks }; run_queue = rq }

abbrev pub set_task : Sched → ℕ → Task → Sched
set_task s t task = with_tasks s s.run_queue (update s.table.tasks t task)

abbrev pub enqueue : Sched → ℕ → Option Sched
enqueue s t = push s.run_queue s.table.tasks t >>= (λ (rq, tasks). some (with_tasks s rq tasks))

abbrev pub points_to : Option ℕ → ℕ → Bool
points_to none t = false
points_to (some p) t = p == t

abbrev pub is_running : State → Bool
is_running State.running = true
is_running x = false

abbrev pub is_interruptible : State → Bool
is_interruptible State.interruptible = true
is_interruptible x = false

-- `state == TASK_INTERRUPTIBLE || state == TASK_UNINTERRUPTIBLE`
abbrev pub is_sleeping : State → Bool
is_sleeping State.interruptible = true
is_sleeping State.uninterruptible = true
is_sleeping x = false

-- The task polled, the swapper if there is none.
abbrev pub or_swapper : Option ℕ → Option ℕ → Option ℕ
or_swapper none swapper = swapper
or_swapper (some t) swapper = some t

-- `prev->ctxt++`
abbrev pub count_switch : Sched → ℕ → Sched
count_switch s prev =
    let task = s.table.tasks prev in
    set_task s prev (record task { ctxt = (task.ctxt + 1) % 2 ^ 64 })

-- A task that does not sleep is queued again, unless it is the swapper.
pub requeue : Sched → ℕ → Option Sched
requeue s prev =
    let task = s.table.tasks prev in
    let queued = set_task s prev (record task { state = State.queued }) in
    if is_sleeping task.state
    then some s
    else if points_to s.swapper prev
    then some queued
    else enqueue queued prev

abbrev pub switch_to : Sched → ℕ → Sched
switch_to s next =
    let marked = set_task s next (record (s.table.tasks next) { state = State.running }) in
    record marked { current = some next; ctxt = (s.ctxt + 1) % 2 ^ 64 }

-- `sched_schedule` from the choice of the next task on.
pub switch_from : Sched → Option ℕ → ℕ → Option Sched
switch_from s none next = some (switch_to s next)
switch_from s (some prev) next =
    let counted = count_switch s prev in
    if points_to s.swapper next && is_running (s.table.tasks prev).state
    then some counted
    else requeue counted prev >>= (λ left. some (switch_to left next))

pub schedule : Sched → Option Sched
schedule s = poll s.run_queue s.table.tasks >>= (λ (polled, rq, tasks).
    or_swapper polled s.swapper >>= (λ next. switch_from (with_tasks s rq tasks) s.current next))

-- `task->signal.pending |= (1u << (sig - 1))`
abbrev pub mark_pending : Sched → ℕ → ℕ → Sched
mark_pending s t sig =
    let task = s.table.tasks t in
    set_task s t (record task { pending = bit_or task.pending (2 ^ (sig - 1)) })

pub kill : Sched → ℤ → ℤ → Option (ℤ × Sched)
kill s pid (negsuc n) = some (negsuc 0, s)
kill s pid (pos sig) =
    if sig == 0 || ltb max_signals sig then some (negsuc 0, s) else elim (find_by_pid s.table pid) [
      | none ↦ some (negsuc 0, s)
      | some t ↦
          let marked = mark_pending s t sig in
          if is_interruptible (s.table.tasks t).state
          then enqueue marked t >>= (λ woken. some (pos 0, woken))
          else some (pos 0, marked)
    ]

pub getpid : Sched → Option ℤ
getpid s = s.current >>= (λ t. some (s.table.tasks t).pid)
