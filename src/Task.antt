-- ===== src/Task.antt =====
-- `struct task` of include/kernel/sched.h. A task pointer is the index of its slot in the task
-- table, a file pointer the index in the file table, a terminal pointer its number; `none` is the
-- null pointer. The wait queues of a task are in the store of Wait. The
-- saved registers, the kernel stack and the address space are not part of it.
use punix.Base.{ℕ, Option, none, List, replicate}
use punix.Base.Int.{ℤ, pos, negsuc}
use punix.Files.{Files}

-- `enum sched_state`
pub data State : Type 0 where
  pooled queued running interruptible uninterruptible zombie : State

pub record Task : Type 0 where
  pub pid : ℤ
  pub next : Option ℕ
  pub parent : Option ℕ
  pub children : Option ℕ
  pub next_sibling : Option ℕ
  pub exit_status : ℤ
  pub cwd : List ℕ
  pub name : List ℕ
  pub files : Files
  pub ctty : Option ℕ
  pub state : State
  pub ctxt : ℕ
  pub brk : ℕ
  pub brk_limit : ℕ
  pub sys_call_cnt : ℕ
  pub pending : ℕ

-- `PID_NONE`
abbrev pub pid_none : ℤ
pid_none = negsuc 0

-- A task as `task_table_init` leaves it.
abbrev pub blank : Task
blank = record {
  pid = pid_none;
  next = none;
  parent = none;
  children = none;
  next_sibling = none;
  exit_status = pos 0;
  cwd = replicate 64 0;
  name = replicate 64 0;
  files = λ fd. none;
  ctty = none;
  state = State.pooled;
  ctxt = 0;
  brk = 0;
  brk_limit = 0;
  sys_call_cnt = 0;
  pending = 0;
}
