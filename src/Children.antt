-- ===== src/Children.antt =====
-- The lists of children that `sched_waitpid` of kernel/core/sched.c searches, linked through the
-- `next_sibling` fields of the tasks. The loops run on fuel; `none` is the lack of it.
pub mod Search
pub mod Waitpid
pub mod Unlink
pub mod Reap
pub mod AnyChild
pub mod Fork
pub mod Forked
pub mod ForkState
pub mod ForkChild
mod Tests
use punix.Base.{ℕ, zero, suc, Option, none, some, Bool, true, false, ◌==◌, if◌then◌else◌}
use punix.Base.Int.{ℤ, pos, negsuc}
use punix.Task.{State, Task}
use punix.RunQueue.{Tasks}

-- `child->pid == pid`
abbrev pub same_pid : ℤ → ℤ → Bool
same_pid (pos a) (pos b) = a == b
same_pid (pos a) (negsuc b) = false
same_pid (negsuc a) (pos b) = false
same_pid (negsuc a) (negsuc b) = a == b

abbrev pub is_zombie : State → Bool
is_zombie State.zombie = true
is_zombie x = false

-- The loop that `find_child_by_pid` and `find_zombie_child` both write out, with its test.
pub find_from : ℕ → (Task → Bool) → Tasks → Option ℕ → Option (Option ℕ)
find_from zero test tasks p = none
find_from (suc fuel) test tasks none = some none
find_from (suc fuel) test tasks (some child) =
    let rest = find_from fuel test tasks (tasks child).next_sibling in
    if test (tasks child) then some (some child) else rest

abbrev pub find_child_by_pid : ℕ → Tasks → ℕ → ℤ → Option (Option ℕ)
find_child_by_pid fuel tasks parent pid =
    find_from fuel (λ task. same_pid task.pid pid) tasks (tasks parent).children

abbrev pub find_zombie_child : ℕ → Tasks → ℕ → Option (Option ℕ)
find_zombie_child fuel tasks parent =
    find_from fuel (λ task. is_zombie task.state) tasks (tasks parent).children
