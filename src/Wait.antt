-- ===== src/Wait.antt =====
-- The wait queues of kernel/core/wait.c: doubly linked lists of entries. Queues and entries are at
-- addresses of a store; `none` is the null pointer.
pub mod Linked
pub mod Unlink
pub mod Neighbours
pub mod Remove
pub mod Wakeup
mod Tests
use punix.Base.{ℕ, zero, suc, Option, none, some, Bool, true, false, update, ◌>>=◌, if◌then◌else◌}
use punix.Task.{Task}
use punix.Sched.{Sched, enqueue, is_sleeping}

-- `struct wait_queue_entry`
pub record Entry : Type 0 where
  pub task : Option ℕ
  pub prev : Option ℕ
  pub next : Option ℕ
  pub queue : Option ℕ

-- `struct wait_queue`
pub record WaitQueue : Type 0 where
  pub head : Option ℕ
  pub tail : Option ℕ

pub record Waits : Type 0 where
  pub queues : ℕ → WaitQueue
  pub entries : ℕ → Entry

abbrev pub set_queue : Waits → ℕ → WaitQueue → Waits
set_queue s q v = record s { queues = update s.queues q v }

abbrev pub set_entry : Waits → ℕ → Entry → Waits
set_entry s e v = record s { entries = update s.entries e v }

abbrev pub empty : WaitQueue
empty = record { head = none; tail = none }

pub queue_init : Waits → Option ℕ → Waits
queue_init s none = s
queue_init s (some q) = set_queue s q empty

pub entry_init : Waits → Option ℕ → Option ℕ → Waits
entry_init s none task = s
entry_init s (some e) task =
    set_entry s e (record { task = task; prev = none; next = none; queue = none })

-- The entry with its links set, behind the last entry `tail`.
abbrev pub place : Waits → ℕ → ℕ → Option ℕ → Waits
place s q e tail = set_entry s e (record (s.entries e) { queue = some q; prev = tail; next = none })

abbrev pub link : Waits → ℕ → ℕ → Option ℕ → Waits
link s q e none = set_queue (place s q e none) q (record { head = some e; tail = some e })
link s q e (some t) =
    let placed = place s q e (some t) in
    set_queue (set_entry placed t (record (placed.entries t) { next = some e })) q
      (record (s.queues q) { tail = some e })

-- An entry that is in a queue stays where it is.
pub add : Waits → Option ℕ → Option ℕ → Waits
add s none e = s
add s (some q) none = s
add s (some q) (some e) = elim (s.entries e).queue [
  | none ↦ link s q e (s.queues q).tail
  | some p ↦ s
]

-- `entry->prev->next = next`, or the head of the queue.
abbrev pub set_next : Waits → ℕ → Option ℕ → Option ℕ → Waits
set_next s q none next = set_queue s q (record (s.queues q) { head = next })
set_next s q (some p) next = set_entry s p (record (s.entries p) { next = next })

-- `entry->next->prev = prev`, or the tail of the queue.
abbrev pub set_prev : Waits → ℕ → Option ℕ → Option ℕ → Waits
set_prev s q none prev = set_queue s q (record (s.queues q) { tail = prev })
set_prev s q (some n) prev = set_entry s n (record (s.entries n) { prev = prev })

abbrev pub unlink : Waits → ℕ → ℕ → Waits
unlink s q e =
    let left = set_next s q (s.entries e).prev (s.entries e).next in
    set_prev left q (left.entries e).next (left.entries e).prev

abbrev pub detach : Waits → ℕ → Waits
detach s e = set_entry s e (record (s.entries e) { prev = none; next = none; queue = none })

pub remove : Waits → Option ℕ → Waits
remove s none = s
remove s (some e) = elim (s.entries e).queue [ none ↦ s | some q ↦ detach (unlink s q e) e ]

-- A task that sleeps is queued to run.
pub wake_task : Sched → Option ℕ → Option Sched
wake_task s none = some s
wake_task s (some t) = if is_sleeping (s.table.tasks t).state then enqueue s t else some s

-- The loop over the entries detached, on fuel.
unfoldable pub wake_loop : ℕ → Waits → Sched → Option ℕ → Option (Waits × Sched)
wake_loop zero w s e = none
wake_loop (suc fuel) w s none = some (w, s)
wake_loop (suc fuel) w s (some e) =
    wake_task s (w.entries e).task
    >>= (λ woken. wake_loop fuel (detach w e) woken (w.entries e).next)

unfoldable pub wakeup : ℕ → Waits → Sched → Option ℕ → Option (Waits × Sched)
wakeup fuel w s none = some (w, s)
wakeup fuel w s (some q) = wake_loop fuel (set_queue w q empty) s (w.queues q).head
