-- ===== src/Sched/Signals.antt =====
-- `sched_kill` marks a signal and wakes the task that it goes to.
use punix.Base.{
  ℕ, ◌+◌, ◌-◌, ◌^◌, ◌<◌, ◌≤◌, ◌≡◌, refl, ap, ◌∙◌, ◌≢◌, inl, inr, bit_or, none, some, List, [], ◌∷◌,
  ◌++◌, Bool, true, false, Bool-cases, ◌||◌, length, arith, ltb, lt→ltb, le→ltb, ◌==◌,
  if◌then◌else◌, update_self, ◌>>=◌, ne→==,
}
use punix.Base.Int.{ℤ, pos, negsuc}
use punix.FreeRing.{w32}
use punix.Task.{Task}
use punix.TaskTable.{find_by_pid}
use punix.RunQueue.Linked.{NotIn, IsQueue}
use punix.Sched.{Sched, kill, enqueue, mark_pending, is_interruptible, max_signals}
use punix.Sched.Inv.{IsSched, IsQueue-update, enqueue-IsSched}

-- The signal passes the test of its number and the pid names a task.
pub kill-found :
    (s : Sched) (pid : ℤ) (sig t : ℕ)
    → 0 < sig
    → sig ≤ max_signals
    → find_by_pid s.table pid ≡ some t
    → kill s pid (pos sig) ≡ (
        if is_interruptible (s.table.tasks t).state
        then enqueue (mark_pending s t sig) t >>= (λ woken. some (pos 0, woken))
        else some (pos 0, mark_pending s t sig))
unfolding kill
kill-found s pid sig t low high e =
    rw (ne→== sig 0 (omega arith), le→ltb max_signals sig high, e) refl

-- A signal number out of range, or a pid of no task, is refused and changes nothing.
pub kill-refuses :
    (s : Sched) (pid : ℤ)
    → ((n : ℕ) → kill s pid (negsuc n) ≡ some (negsuc 0, s))
      × (kill s pid (pos 0) ≡ some (negsuc 0, s))
      × ((sig : ℕ) → max_signals < sig → kill s pid (pos sig) ≡ some (negsuc 0, s))
      × ((sig : ℕ) → find_by_pid s.table pid ≡ none → kill s pid (pos sig) ≡ some (negsuc 0, s))
unfolding kill
kill-refuses s pid = (
  λ n. refl,
  refl,
  λ sig h.
      rw (lt→ltb max_signals sig h)
        (elim (Bool-cases (sig == 0)) [ inl e ↦ rw e refl | inr e ↦ rw e refl ]),
  λ sig h. elim (Bool-cases (sig == 0 || ltb max_signals sig)) [
    | inl e ↦ rw e refl
    | inr e ↦ rw (e, h) refl
  ],
)

pub mark-IsQueue :
    (s : Sched) (t sig : ℕ) (l : List ℕ)
    → IsQueue s.table.tasks s.run_queue l
    → IsQueue (mark_pending s t sig).table.tasks s.run_queue l
mark-IsQueue s t sig l v = IsQueue-update s.table.tasks s.run_queue l t _ refl v

-- The effect on the task: the bit of the signal is set, and its state stays as it is.
abbrev pub Marked : Task → Task → ℕ → Type 0
Marked task task' sig =
    task' ≡ record task { pending = bit_or task.pending (2 ^ (sig - 1)); next = task'.next }

pub marked-Marked :
    (s : Sched) (t sig : ℕ)
    → (mark_pending s t sig).table.tasks t
      ≡ record (s.table.tasks t) { pending = bit_or (s.table.tasks t).pending (2 ^ (sig - 1)) }
marked-Marked s t sig = update_self s.table.tasks t _

-- A task that may go to the end of the queue `l`.
abbrev pub CanWake : Sched → ℕ → List ℕ → ℕ → Type 0
CanWake s w l t = NotIn t l × (w ≢ t) × (s.current ≢ some t) × (length l + 2 < w32)

-- `sched_kill` on a task that does not sleep interruptibly marks the signal and leaves the queue
-- alone. One that sleeps interruptibly is also put at the end of the queue, if it is not queued, the
-- current one or the swapper, and the length of the queue does not overflow.
pub kill_lem :
    (s : Sched) (w : ℕ) (l : List ℕ) (pid : ℤ) (sig t : ℕ) (wakes : Bool)
    → IsSched s w l
    → 0 < sig
    → sig ≤ max_signals
    → find_by_pid s.table pid ≡ some t
    → is_interruptible (s.table.tasks t).state ≡ wakes
    → (wakes ≡ true → CanWake s w l t)
    → (s' : Sched) × (kill s pid (pos sig) ≡ some (pos 0, s'))
      × IsSched s' w (if wakes then l ++ (t ∷ []) else l)
      × Marked (s.table.tasks t) (s'.table.tasks t) sig
kill_lem s w l pid sig t false v low high e ei can = (
  mark_pending s t sig,
  kill-found s pid sig t low high e ∙ (rw ei refl),
  record {
    queue = mark-IsQueue s t sig l v.queue;
    swapper = v.swapper;
    swapper_out = v.swapper_out;
    current_out = v.current_out;
    room = v.room;
  },
  rw (marked-Marked s t sig) refl,
)
kill_lem s w l pid sig t true v low high e ei can =
    let marked = mark_pending s t sig in
    let (n, nw, nc, room) = can refl in
    let v' : IsSched marked w l = record {
      queue = mark-IsQueue s t sig l v.queue;
      swapper = v.swapper;
      swapper_out = v.swapper_out;
      current_out = v.current_out;
      room = v.room;
    } in
    let (s', ee, v2, same, current) = enqueue-IsSched marked w t l v' n nw nc room in
    (
      s',
      kill-found s pid sig t low high e ∙ (rw (ei, ee) refl),
      v2,
      same t
          ∙ ap (λ (x : Task). record x { next = (s'.table.tasks t).next }) (marked-Marked s t sig),
    )
