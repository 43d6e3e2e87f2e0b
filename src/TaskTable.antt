-- ===== src/TaskTable.antt =====
-- kernel/core/task_table.c: the slots for tasks and the ring of free slots. The address space that
-- the initialiser builds for each slot is not modelled.
pub mod Inv
pub mod Init
pub mod Alloc
pub mod Free
mod Tests
use punix.Base.{
  update, ℕ, zero, suc, ◌+◌, ◌-◌, ◌*◌, ◌/◌, ◌%◌, ◌^◌, bit_and, Option, none, some, ltb, ◌==◌,
  if◌then◌else◌,
}
use punix.Base.Int.{ℤ, pos, negsuc}
use punix.FreeRing.{w32, FreeRing, take, give}
use punix.Task.{State, Task, blank, pid_none}
use punix.Files

abbrev pub max_process_cnt : ℕ
max_process_cnt = 64

-- log2 of the number of slots: `PID_MASK` has so many bits.
abbrev pub pid_bits : ℕ
pid_bits = 6

abbrev pub pid_mask : ℕ
pid_mask = max_process_cnt - 1

abbrev pub max_generation : ℕ
max_generation = (2 ^ 31 - 1) / max_process_cnt

pub record TaskTable : Type 0 where
  pub ring : FreeRing
  pub tasks : ℕ → Task
  pub generation : ℕ → ℕ

-- The conversion of a uint32_t to an int.
abbrev pub to_int : ℕ → ℤ
to_int x = if ltb x (2 ^ 31) then pos x else negsuc (w32 - x - 1)

pub init_slot : TaskTable → ℕ → TaskTable
init_slot t i = record {
  ring = record t.ring { slots = update t.ring.slots i i };
  tasks = update t.tasks i (record blank { files = Files.init blank.files });
  generation = update t.generation i 0;
}

pub init_loop : ℕ → ℕ → TaskTable → TaskTable
init_loop zero i t = t
init_loop (suc left) i t = init_loop left (i + 1) (init_slot t i)

pub init : TaskTable → TaskTable
init t =
    init_loop max_process_cnt 0
      (record t { ring = record t.ring { head = 0; tail = max_process_cnt } })

-- `if (task->pid != pid) return NULL; else return task;`
unfoldable pub check_slot : ℕ → ℤ → ℕ → Option ℕ
check_slot n (negsuc p) slot = none
check_slot n (pos p) slot = if p == n then some slot else none

unfoldable pub find_by_pid : TaskTable → ℤ → Option ℕ
find_by_pid t (negsuc n) = none
find_by_pid t (pos n) = let slot = bit_and n pid_mask in check_slot n (t.tasks slot).pid slot

-- The slot taken from the ring gets its pid, and its generation moves on.
abbrev pub claim : TaskTable → ℕ → FreeRing → TaskTable
claim t slot ring = record {
  ring = ring;
  tasks =
      update t.tasks slot (record (t.tasks slot) {
        pid = to_int ((t.generation slot * max_process_cnt + slot) % w32);
      });
  generation = update t.generation slot (bit_and ((t.generation slot + 1) % w32) max_generation);
}

-- `none` for a null pointer.
pub alloc : TaskTable → Option (ℕ × TaskTable)
alloc t = elim (take pid_bits t.ring) [
  | none ↦ none
  | some (slot, ring) ↦ some (slot, claim t slot ring)
]

abbrev pub release : Task → Task
release task = record task {
  pid = pid_none;
  state = State.pooled;
  children = none;
  parent = none;
  next_sibling = none;
}

-- `none` is a panic: too many frees, a task with no pid, or a task that is not in its slot.
pub free : TaskTable → ℕ → Option TaskTable
free t task = elim (t.tasks task).pid [
  | negsuc p ↦ none
  | pos p ↦
      let slot = bit_and p pid_mask in
      if slot == task
      then elim (give pid_bits t.ring slot) [
        | none ↦ none
        | some ring ↦
            some (record t { ring = ring; tasks = update t.tasks task (release (t.tasks task)) })
      ]
      else none
]
