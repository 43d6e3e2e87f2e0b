-- ===== src/Children/Fork.antt =====
-- `sched_fork` of kernel/core/sched.c. The wait queues of a task are at the addresses that the two
-- functions give; `none` is an overrun of a buffer or a null pointer. The registers, the kernel stack
-- and the copy of the memory are not part of a task here.
use punix.Base.{ℕ, Option, none, some, ◌>>=◌, update, List}
use punix.Base.Int.{ℤ, pos, negsuc}
use punix.Kutils.Strings.{strcpy}
use punix.Task.{State, Task}
use punix.TaskTable
use punix.RunQueue.{Tasks}
use punix.Sched.{Sched, enqueue}
use punix.Wait.{Waits, queue_init}

-- The child, whose slot held `task`, with its copies of the strings of the parent `p`.
abbrev pub child_task : Tasks → ℕ → Task → List ℕ → List ℕ → Task
child_task tasks p task name cwd = record task {
  name = name;
  parent = some p;
  next_sibling = (tasks p).children;
  brk = (tasks p).brk;
  brk_limit = (tasks p).brk_limit;
  cwd = cwd;
  ctty = (tasks p).ctty;
  pending = 0;
  ctxt = 0;
  sys_call_cnt = 0;
  exit_status = pos 0;
  state = State.queued;
}

abbrev pub with_child : Tasks → ℕ → ℕ → List ℕ → List ℕ → Tasks
with_child tasks p c name cwd =
    update (update tasks c (child_task tasks p (tasks c) name cwd)) p
      (record (tasks p) { children = some c })

abbrev pub inherit : Tasks → ℕ → ℕ → Option Tasks
inherit tasks p c = strcpy (tasks c).name (tasks p).name >>= (λ name.
    strcpy (tasks c).cwd (tasks p).cwd >>= (λ cwd. some (with_child tasks p c name cwd)))

abbrev pub signal_init : (ℕ → ℕ) → (ℕ → ℕ) → Waits → ℕ → Waits
signal_init wait_exit wait_child w c =
    queue_init (queue_init w (some (wait_exit c))) (some (wait_child c))

-- `-ESRCH` and `-ENOMEM`
abbrev pub no_task : ℤ
no_task = negsuc 2

abbrev pub no_memory : ℤ
no_memory = negsuc 11

module _ (wait_exit wait_child : ℕ → ℕ) where
  abbrev pub fork_into :
      Waits → Sched → ℕ → Option (ℕ × TaskTable.TaskTable) → Option (ℤ × Waits × Sched)
  fork_into w s p none = some (no_memory, w, s)
  fork_into w s p (some (c, t)) =
      inherit t.tasks p c
      >>= (λ tasks. enqueue (record s { table = record t { tasks = tasks } }) c)
      >>= (λ s'. some ((s'.table.tasks c).pid, signal_init wait_exit wait_child w c, s'))

  unfoldable pub fork : Waits → Sched → Option (ℤ × Waits × Sched)
  fork w s = elim s.current [
    | none ↦ some (no_task, w, s)
    | some p ↦ fork_into w s p (TaskTable.alloc s.table)
  ]
