-- ===== src/RunQueue.antt =====
-- The run queue of kernel/core/sched.c, linked through the `next` fields of the tasks. `none` as a
-- result is an access through a null pointer.
pub mod Linked
pub mod Ops
use punix.Base.{update, ℕ, ◌+◌, ◌-◌, ◌%◌, Option, none, some, ◌==◌, if◌then◌else◌}
use punix.FreeRing.{w32}
use punix.Task.{Task}

pub record RunQueue : Type 0 where
  pub first : Option ℕ
  pub last : Option ℕ
  pub len : ℕ

abbrev pub Tasks : Type 0
Tasks = ℕ → Task

abbrev pub set_next : Tasks → ℕ → Option ℕ → Tasks
set_next tasks t p = update tasks t (record (tasks t) { next = p })

pub init : RunQueue
init = record { first = none; last = none; len = 0 }

pub push : RunQueue → Tasks → ℕ → Option (RunQueue × Tasks)
push rq tasks t =
    let cleared = set_next tasks t none in
    if rq.len == 0
    then some (record { first = some t; last = some t; len = (rq.len + 1) % w32 }, cleared)
    else elim rq.last [
      | none ↦ none
      | some l ↦
          some (record rq { last = some t; len = (rq.len + 1) % w32 }, set_next cleared l (some t))
    ]

-- The result is the task polled, a null pointer if the queue is empty.
pub poll : RunQueue → Tasks → Option (Option ℕ × RunQueue × Tasks)
poll rq tasks = if rq.len == 0 then some (none, rq, tasks) else elim rq.first [
  | none ↦ none
  | some t ↦
      let len = rq.len - 1 in
      some (
        some t,
        record { first = (tasks t).next; last = if len == 0 then none else rq.last; len = len },
        set_next tasks t none,
      )
]
