-- ===== src/Sched/Inv.antt =====
-- What holds of the scheduler between its operations, and the round-robin order.
use punix.Base.{
  length-append, ◌≤◌, ℕ, ◌+◌, ◌<◌, ◌≡◌, refl, sym, ap, ap₂, ◌∙◌, ◌≢◌, Option, none, some, List, [],
  ◌∷◌, ◌++◌, Bool, true, false, length, arith, ◌==◌, if◌then◌else◌, update, update_self, update_ne,
  ℕ_discrete, eq→==, ne→==,
}
use punix.FreeRing.{w32}
use punix.Task.{Task}
use punix.RunQueue.{RunQueue, Tasks}
use punix.RunQueue.Linked.{NotIn, IsQueue, Chain-cong, NotIn-snoc}
use punix.RunQueue.Ops.{SameButNext, push_lem}
use punix.Sched.{Sched, with_tasks, enqueue}

-- `l` is the order in which the tasks wait for the processor; `w` is the swapper.
pub record IsSched (s : Sched) (w : ℕ) (l : List ℕ) : Type 0 where
  pub queue : IsQueue s.table.tasks s.run_queue l
  pub swapper : s.swapper ≡ some w
  pub swapper_out : NotIn w l
  pub current_out : (c : ℕ) → s.current ≡ some c → NotIn c l
  pub room : length l + 1 < w32

-- The queue after `c` has left the processor.
abbrev pub requeued : ℕ → Bool → ℕ → List ℕ → List ℕ
requeued w sleeps c l = if sleeps then l else if w == c then l else l ++ (c ∷ [])

-- Round robin: the next task and the queue, from whether the current task sleeps and runs.
abbrev pub turn : ℕ → Bool → Bool → Option ℕ → List ℕ → ℕ × List ℕ
turn w sleeps runs none [] = (w, [])
turn w sleeps runs none (x ∷ xs) = (x, xs)
turn w sleeps runs (some c) [] = if runs then (c, []) else (w, requeued w sleeps c [])
turn w sleeps runs (some c) (x ∷ xs) = (x, requeued w sleeps c xs)

-- At most the scheduling fields of the tasks differ.
abbrev pub SameButSched : Tasks → Tasks → Type 0
SameButSched tasks tasks' =
    (i : ℕ)
    → tasks' i ≡ record (tasks i) {
      next = (tasks' i).next;
      state = (tasks' i).state;
      ctxt = (tasks' i).ctxt;
    }

pub SameButSched-trans : (a b c : Tasks) → SameButSched a b → SameButSched b c → SameButSched a c
SameButSched-trans a b c h k i =
    k i
    ∙ ap (λ (x : Task). record x { next = (c i).next; state = (c i).state; ctxt = (c i).ctxt })
        (h i)

pub SameButNext→SameButSched : (a b : Tasks) → SameButNext a b → SameButSched a b
SameButNext→SameButSched a b h i =
    h i
    ∙ ap₂ (λ st ct. record (a i) { next = (b i).next; state = st; ctxt = ct })
        (sym (ap (λ (x : Task). x.state) (h i))) (sym (ap (λ (x : Task). x.ctxt) (h i)))

-- A store to a task that keeps its link.
pub IsQueue-update :
    (tasks : Tasks) (rq : RunQueue) (l : List ℕ) (t : ℕ) (task : Task)
    → task.next ≡ (tasks t).next
    → IsQueue tasks rq l
    → IsQueue (update tasks t task) rq l
IsQueue-update tasks rq l t task same v = record {
  chain = Chain-cong tasks (update tasks t task) rq.first l keeps v.chain;
  last = v.last;
  len = v.len;
  distinct = v.distinct;
  small = v.small;
}
  where
    keeps : (x : ℕ) → (update tasks t task x).next ≡ (tasks x).next
    keeps x = elim (ℕ_discrete x t) [
      | yes e ↦ rw (e, update_self) same
      | no ne ↦ rw (update_ne tasks t x task ne) refl
    ]

pub NotIn-requeued :
    (w : ℕ) (sleeps : Bool) (c : ℕ) (l : List ℕ) (x : ℕ)
    → NotIn x l
    → x ≢ c
    → NotIn x (requeued w sleeps c l)
NotIn-requeued w true c l x n ne = n
NotIn-requeued w false c l x n ne = elim (ℕ_discrete w c) [
  | yes e ↦ rw (eq→== w c e) n
  | no d ↦ rw (ne→== w c d) (NotIn-snoc x c l n ne)
]

-- Queueing a task that is not queued.
pub enqueue_lem :
    (s : Sched) (l : List ℕ) (t : ℕ)
    → IsQueue s.table.tasks s.run_queue l
    → NotIn t l
    → length l + 1 < w32
    → (rq : RunQueue) × (tasks : Tasks) × (enqueue s t ≡ some (with_tasks s rq tasks))
      × IsQueue tasks rq (l ++ (t ∷ []))
      × SameButNext s.table.tasks tasks
enqueue_lem s l t v n room =
    let (rq, tasks, e, q, same) = push_lem s.table.tasks s.run_queue l t v n room in
    (rq, tasks, rw e refl, q, same)

pub NotIn-requeued-swapper :
    (w : ℕ) (sleeps : Bool) (c : ℕ) (l : List ℕ) → NotIn w l → NotIn w (requeued w sleeps c l)
NotIn-requeued-swapper w sleeps c l n = elim (ℕ_discrete w c) [
  | yes e ↦ asleep sleeps e
  | no ne ↦ NotIn-requeued w sleeps c l w n ne
]
  where
    asleep : (b : Bool) → w ≡ c → NotIn w (requeued w b c l)
    asleep true e = n
    asleep false e = rw (eq→== w c e) n

pub length-requeued :
    (w : ℕ) (sleeps : Bool) (c : ℕ) (l : List ℕ) → length (requeued w sleeps c l) ≤ length l + 1
length-requeued w true c l = omega arith
length-requeued w false c l = elim (ℕ_discrete w c) [
  | yes e ↦ rw (eq→== w c e) (omega arith)
  | no ne ↦ rw (ne→== w c ne) (omega (arith, length-append l (c ∷ [])))
]

pub enqueue-IsSched :
    (s : Sched) (w t : ℕ) (l : List ℕ)
    → IsSched s w l
    → NotIn t l
    → w ≢ t
    → s.current ≢ some t
    → length l + 2 < w32
    → (s' : Sched) × (enqueue s t ≡ some s')
      × IsSched s' w (l ++ (t ∷ []))
      × SameButNext s.table.tasks s'.table.tasks
      × (s'.current ≡ s.current)
enqueue-IsSched s w t l v n nw nc room =
    let (rq, tasks, e, q, same) = enqueue_lem s l t v.queue n (omega arith) in
    (
      with_tasks s rq tasks,
      e,
      record {
        queue = q;
        swapper = v.swapper;
        swapper_out = NotIn-snoc w t l v.swapper_out nw;
        current_out = λ c ec. NotIn-snoc c t l (v.current_out c ec) (λ et. nc (ec ∙ ap some et));
        room = omega (arith, length-append l (t ∷ []));
      },
      same,
      refl,
    )
