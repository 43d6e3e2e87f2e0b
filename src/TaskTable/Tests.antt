-- ===== src/TaskTable/Tests.antt =====
-- The theorems on the task table, from a table over arbitrary memory.
use punix.Base.{update, ℕ, ◌≡◌, ◌≢◌, ◌<◌, ◌↔◌, refl, none, some, arith}
use punix.Base.Int.{pos, negsuc}
use punix.FreeRing.{take}
use punix.FreeRing.Queue.{count}
use punix.Task.{blank}
use punix.TaskTable.{
  TaskTable, max_process_cnt, init, init_loop, init_slot, alloc, free, find_by_pid, release, claim,
}
use punix.TaskTable.Inv.{IsTable, InUse}
use punix.TaskTable.Init.{init-IsTable}
use punix.TaskTable.Alloc.{Allocates, alloc-Allocates, alloc-IsTable}
use punix.TaskTable.Free.{free_lem, find_by_pid_iff}

-- Memory before the initialiser has run.
abbrev garbage : TaskTable
garbage = record {
  ring = record { slots = λ i. 5; head = 9; tail = 3 };
  tasks = λ i. record blank { pid = pos 77 };
  generation = λ i. 4;
}

init-IsTable_example : IsTable (init garbage) × (count (init garbage).ring ≡ max_process_cnt)
init-IsTable_example = init-IsTable garbage

alloc-Allocates_example : Allocates (init garbage) (alloc (init garbage))
alloc-Allocates_example = alloc-Allocates (init garbage) (init-IsTable garbage).0

find_by_pid_iff_example :
    ((find_by_pid (init garbage) (pos 3) ≡ some 3)
      ↔ ((3 < max_process_cnt) × (((init garbage).tasks 3).pid ≡ pos 3)))
    × ((n : ℕ) → find_by_pid (init garbage) (negsuc n) ≡ none)
find_by_pid_iff_example = find_by_pid_iff (init garbage) 3 3 (init-IsTable garbage).0

-- After one allocation slot 0 is in use under pid 0.
abbrev one_task : TaskTable
one_task = claim (init garbage) 0 (record (init garbage).ring { head = 1 })

one_task_allocated : alloc (init garbage) ≡ some (0, one_task)
unfolding alloc take init init_loop init_slot update
one_task_allocated = refl

one_task-IsTable : IsTable one_task
one_task-IsTable =
    alloc-IsTable (init garbage) one_task 0 (init-IsTable garbage).0 one_task_allocated

one_task-InUse : InUse one_task 0
unfolding init init_loop init_slot update
one_task-InUse = (0, refl, omega arith, refl)

free_lem_example :
    (t' : TaskTable) × (free one_task 0 ≡ some t')
    × IsTable t'
    × (t'.tasks 0 ≡ release (one_task.tasks 0))
    × ((i : ℕ) → i ≢ 0 → t'.tasks i ≡ one_task.tasks i)
free_lem_example = free_lem one_task 0 one_task-IsTable (omega arith) one_task-InUse
