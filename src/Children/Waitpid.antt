-- ===== src/Children/Waitpid.antt =====
-- `sched_waitpid` of kernel/core/sched.c, before and behind its calls of `wait_event`, on a running
-- task. Its searches run on fuel; `none` is the lack of it or a panic of `task_table_free`. The wait
-- itself is not modelled.
use punix.Base.{
  ℕ, zero, suc, ◌/◌, Option, none, some, not, ◌==◌, ◌||◌, if◌then◌else◌, ◌>>=◌, update,
}
use punix.Base.Int.{ℤ, pos, negsuc}
use punix.Task.{Task}
use punix.TaskTable
use punix.Sched.{Sched}
use punix.RunQueue.{Tasks}
use punix.Children.{is_zombie, find_child_by_pid, find_zombie_child}

-- `struct task **prev`: the field of the parent or of a sibling.
pub data Link : Type 0 where
  children_of : ℕ → Link
  sibling_of : ℕ → Link

abbrev pub get_link : Tasks → Link → Option ℕ
get_link tasks (Link.children_of p) = (tasks p).children
get_link tasks (Link.sibling_of x) = (tasks x).next_sibling

abbrev pub set_link : Tasks → Link → Option ℕ → Tasks
set_link tasks (Link.children_of p) v = update tasks p (record (tasks p) { children = v })
set_link tasks (Link.sibling_of x) v = update tasks x (record (tasks x) { next_sibling = v })

abbrev pub step_link : Tasks → Link → ℕ → ℕ → Option Tasks → Option Tasks
step_link tasks link child x rest =
    if x == child then some (set_link tasks link (tasks child).next_sibling) else rest

-- The loop that takes the child out of the list.
unfoldable pub unlink_child : ℕ → Tasks → Link → ℕ → Option Tasks
unlink_child zero tasks link child = none
unlink_child (suc fuel) tasks link child = elim (get_link tasks link) [
  | none ↦ some tasks
  | some x ↦ step_link tasks link child x (unlink_child fuel tasks (Link.sibling_of x) child)
]

-- What is left to do: to return an error or 0, to reap a child, or to wait for one child or for any.
pub data Waiting : Type 0 where
  gives : ℤ → Waiting
  reaps : ℕ → Waiting
  waits_child : ℕ → Waiting
  waits_any : Waiting

-- `-EINVAL`, `-ECHILD` and `-EINTR`
abbrev pub bad_argument : ℤ
bad_argument = negsuc 21

abbrev pub no_child : ℤ
no_child = negsuc 9

abbrev pub interrupted : ℤ
interrupted = negsuc 3

abbrev pub choose_child : Tasks → ℕ → Option ℕ → Option Waiting
choose_child tasks options none = some (Waiting.gives no_child)
choose_child tasks options (some child) =
    if is_zombie (tasks child).state
    then some (Waiting.reaps child)
    else if options == 1
    then some (Waiting.gives (pos 0))
    else some (Waiting.waits_child child)

abbrev pub choose_any : Option ℕ → ℕ → Option ℕ → Option Waiting
choose_any children options (some child) = some (Waiting.reaps child)
choose_any none options none = some (Waiting.gives no_child)
choose_any (some c) options none =
    if options == 1 then some (Waiting.gives (pos 0)) else some Waiting.waits_any

-- Up to the wait. A number has another bit than that of WNOHANG if it is negative or its half is not
-- zero.
unfoldable pub choose : ℕ → Tasks → ℕ → ℤ → ℤ → Option Waiting
choose fuel tasks current pid (negsuc n) = some (Waiting.gives bad_argument)
choose fuel tasks current (pos p) (pos options) =
    if not (options / 2 == 0) || p == 0
    then some (Waiting.gives bad_argument)
    else (find_child_by_pid fuel tasks current (pos p) >>= choose_child tasks options)
choose fuel tasks current (negsuc p) (pos options) =
    if not (options / 2 == 0) || not (p == 0)
    then some (Waiting.gives bad_argument)
    else (find_zombie_child fuel tasks current >>= choose_any (tasks current).children options)

-- Behind the wait.
pub wake_up : ℕ → Tasks → ℕ → Waiting → Option Waiting
wake_up fuel tasks current (Waiting.gives r) = some (Waiting.gives r)
wake_up fuel tasks current (Waiting.reaps child) = some (Waiting.reaps child)
wake_up fuel tasks current (Waiting.waits_child child) =
    some (if is_zombie (tasks child).state then Waiting.reaps child else Waiting.gives interrupted)
wake_up fuel tasks current Waiting.waits_any = find_zombie_child fuel tasks current >>= λ found.
    some (elim found [ none ↦ Waiting.gives interrupted | some child ↦ Waiting.reaps child ])

-- The result, what is stored in `*status`, and the state.
abbrev pub Reply : Type 0
Reply = ℤ × Option ℤ × Sched

-- From `task_table_free` on, with the child as it was before.
abbrev pub free_child : Sched → Task → ℕ → Tasks → Option Reply
free_child s before child tasks =
    TaskTable.free (record s.table { tasks = tasks }) child >>= λ table.
    some (before.pid, some before.exit_status, record s { table = table })

unfoldable pub reap : ℕ → Sched → ℕ → ℕ → Option Reply
reap fuel s current child =
    unlink_child fuel s.table.tasks (Link.children_of current) child >>= λ tasks.
    free_child s (s.table.tasks child) child tasks

-- A wait is handed to the caller, with the state.
pub data Progress : Type 0 where
  returns : Reply → Progress
  blocks : Waiting → Sched → Progress

abbrev pub finish_wait : ℕ → Sched → ℕ → Waiting → Option Progress
finish_wait fuel s current (Waiting.gives r) = some (Progress.returns (r, none, s))
finish_wait fuel s current (Waiting.reaps child) =
    reap fuel s current child >>= λ reply. some (Progress.returns reply)
finish_wait fuel s current (Waiting.waits_child child) =
    some (Progress.blocks (Waiting.waits_child child) s)
finish_wait fuel s current Waiting.waits_any = some (Progress.blocks Waiting.waits_any s)

unfoldable pub waitpid : ℕ → Sched → ℕ → ℤ → ℤ → Option Progress
waitpid fuel s current pid options =
    choose fuel s.table.tasks current pid options >>= λ w. finish_wait fuel s current w

unfoldable pub waitpid_resumed : ℕ → Sched → ℕ → Waiting → Option Progress
waitpid_resumed fuel s current w =
    wake_up fuel s.table.tasks current w >>= λ w'. finish_wait fuel s current w'
