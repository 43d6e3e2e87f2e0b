-- ===== src/Sched/Twice.antt =====
-- `sched_kill` leaves the state of the task that it wakes as it is, so that a second signal queues
-- the task once more.
use punix.Base.{
  ℕ, ◌+◌, ◌%◌, ◌<◌, ◌≤◌, ◌≡◌, refl, sym, ap, ◌∙◌, ◌≢◌, none, some, List, [], ◌∷◌, true,
  length-append, arith, update_self, update_ne, ℕ_discrete,
}
use punix.Base.Int.{ℤ, pos}
use punix.FreeRing.{w32}
use punix.Task.{Task}
use punix.TaskTable.{find_by_pid}
use punix.TaskTable.Inv.{find_by_pid-cong}
use punix.RunQueue.{set_next}
use punix.RunQueue.Linked.{NotIn, IsQueue, last_of-snoc, Chain-last}
use punix.RunQueue.Ops.{push-linked}
use punix.Sched.{Sched, with_tasks, kill, enqueue, mark_pending, is_interruptible, max_signals}
use punix.Sched.Inv.{IsSched, enqueue_lem}
use punix.Sched.Signals.{kill-found, mark-IsQueue, marked-Marked}

mark-pid :
    (s : Sched) (t sig i : ℕ) → ((mark_pending s t sig).table.tasks i).pid ≡ (s.table.tasks i).pid
mark-pid s t sig i = elim (ℕ_discrete i t) [
  | yes e ↦ rw (e, update_self) refl
  | no ne ↦ rw (update_ne s.table.tasks t i _ ne) refl
]

-- Queueing the last task of the queue again links it to itself.
enqueue-again :
    (s : Sched) (t : ℕ)
    → s.run_queue.len ≢ 0
    → s.run_queue.last ≡ some t
    → (s' : Sched) × (enqueue s t ≡ some s')
      × ((l : List ℕ) → ¬ IsQueue s'.table.tasks s'.run_queue l)
enqueue-again s t ne el =
    let cleared = set_next s.table.tasks t none in
    let rq = record s.run_queue { last = some t; len = (s.run_queue.len + 1) % w32 } in
    (
      with_tasks s rq (set_next cleared t (some t)),
      rw (push-linked s.run_queue s.table.tasks t t ne el) refl,
      λ l v.
          let ends : (set_next cleared t (some t) t).next ≡ none =
            Chain-last (set_next cleared t (some t)) rq.first l t v.chain (sym v.last) in
          let loops : (set_next cleared t (some t) t).next ≡ some t =
            ap (λ (x : Task). x.next) (update_self cleared t _) in
          (cc),
    )

-- Two valid signals to a task that sleeps interruptibly and is not queued: both calls succeed, and
-- afterwards the last task of the run queue is linked to itself, so that no list of tasks is what
-- the queue holds.
pub kill-kill :
    (s : Sched) (w : ℕ) (l : List ℕ) (pid : ℤ) (sig sig' t : ℕ)
    → IsSched s w l
    → 0 < sig
    → sig ≤ max_signals
    → 0 < sig'
    → sig' ≤ max_signals
    → find_by_pid s.table pid ≡ some t
    → is_interruptible (s.table.tasks t).state ≡ true
    → NotIn t l
    → (s1 s2 : Sched) × (kill s pid (pos sig) ≡ some (pos 0, s1))
      × (kill s1 pid (pos sig') ≡ some (pos 0, s2))
      × ((l' : List ℕ) → ¬ IsQueue s2.table.tasks s2.run_queue l')
kill-kill s w l pid sig sig' t v low high low' high' e ei n =
    let marked = mark_pending s t sig in
    let (rq, tasks, ee, q, same) =
      enqueue_lem marked l t (mark-IsQueue s t sig l v.queue) n v.room in
    let s1 = with_tasks marked rq tasks in
    let e1 : find_by_pid s1.table pid ≡ some t =
      find_by_pid-cong s.table s1.table pid
        (λ i. ap (λ (x : Task). x.pid) (same i) ∙ mark-pid s t sig i)
      ∙ e in
    let ei1 : is_interruptible (s1.table.tasks t).state ≡ true =
      ap (λ (x : Task). is_interruptible x.state)
        (same t ∙ ap (λ (x : Task). record x { next = (tasks t).next }) (marked-Marked s t sig))
      ∙ ei in
    let (s2, e2, bad) =
      enqueue-again (mark_pending s1 t sig') t (omega (arith, q.len, length-append l (t ∷ [])))
        (q.last ∙ last_of-snoc l t) in
    (
      s1,
      s2,
      kill-found s pid sig t low high e ∙ (rw (ei, ee) refl),
      kill-found s1 pid sig' t low' high' e1 ∙ (rw (ei1, e2) refl),
      bad,
    )
