-- ===== src/Sched/Turn.antt =====
-- `sched_schedule` gives the processor to the tasks in turn.
use punix.Base.{
  ℕ, ◌+◌, ◌%◌, ◌^◌, ◌<◌, ◌≡◌, refl, sym, ap, ◌∙◌, ◌≢◌, inl, inr, ◌⊎◌, Option, some, List, Bool,
  true, false, ◌&&◌, length, arith, ◌==◌, if◌then◌else◌, update, update_self, update_ne, ℕ_discrete,
  eq→==, ne→==,
}
use punix.FreeRing.{w32}
use punix.Task.{State, Task}
use punix.RunQueue.{RunQueue, Tasks}
use punix.RunQueue.Linked.{NotIn, IsQueue}
use punix.RunQueue.Ops.{SameButNext}
use punix.Sched.{
  Sched, with_tasks, set_task, requeue, count_switch, switch_to, switch_from, is_sleeping,
  is_running, points_to, enqueue,
}
use punix.Sched.Inv.{
  IsSched, requeued, SameButSched, SameButSched-trans, SameButNext→SameButSched, IsQueue-update,
  NotIn-requeued, NotIn-requeued-swapper, length-requeued, enqueue_lem,
}

-- Only the scheduling fields differ, and of the state at most that of `t`.
abbrev pub Touches : Tasks → Tasks → ℕ → Type 0
Touches tasks tasks' t =
    SameButSched tasks tasks' × ((i : ℕ) → i ≢ t → (tasks' i).state ≡ (tasks i).state)

pub store-Touches :
    (tasks : Tasks) (t : ℕ) (st : State) (ct : ℕ)
    → Touches tasks (update tasks t (record (tasks t) { state = st; ctxt = ct })) t
store-Touches tasks t st ct = (
  λ i. elim (ℕ_discrete i t) [
    | yes e ↦ rw (e, update_self) refl
    | no ne ↦ rw (update_ne tasks t i _ ne) refl
  ],
  λ i ne. ap (λ (x : Task). x.state) (update_ne tasks t i _ ne),
)

next-Touches : (tasks tasks' : Tasks) (t : ℕ) → SameButNext tasks tasks' → Touches tasks tasks' t
next-Touches tasks tasks' t h =
    (SameButNext→SameButSched tasks tasks' h, λ i ne. ap (λ (x : Task). x.state) (h i))

Touches-trans : (a b c : Tasks) (t : ℕ) → Touches a b t → Touches b c t → Touches a c t
Touches-trans a b c t h k = (SameButSched-trans a b c h.0 k.0, λ i ne. k.1 i ne ∙ h.1 i ne)

-- `TASK_QUEUED` for a task that leaves the processor awake.
abbrev queued : Sched → ℕ → Sched
queued s c = set_task s c (record (s.table.tasks c) { state = State.queued })

requeue-asleep :
    (s : Sched) (c : ℕ) → is_sleeping (s.table.tasks c).state ≡ true → requeue s c ≡ some s
unfolding requeue
requeue-asleep s c e = rw e refl

requeue-awake :
    (s : Sched) (c : ℕ) (b : Bool)
    → is_sleeping (s.table.tasks c).state ≡ false
    → points_to s.swapper c ≡ b
    → requeue s c ≡ (if b then some (queued s c) else enqueue (queued s c) c)
unfolding requeue
requeue-awake s c b e eb = rw (e, eb) refl

pub points_to-== : (p : Option ℕ) (w c : ℕ) → p ≡ some w → points_to p c ≡ (w == c)
points_to-== p w c e = ap (λ x. points_to x c) e

-- A task that leaves the processor.
requeue_lem :
    (s : Sched) (w c : ℕ) (sleeps : Bool) (l : List ℕ)
    → is_sleeping (s.table.tasks c).state ≡ sleeps
    → s.swapper ≡ some w
    → IsQueue s.table.tasks s.run_queue l
    → NotIn c l
    → length l + 1 < w32
    → (rq : RunQueue) × (tasks : Tasks) × (requeue s c ≡ some (with_tasks s rq tasks))
      × IsQueue tasks rq (requeued w sleeps c l)
      × Touches s.table.tasks tasks c
requeue_lem s w c true l e es v n room = (
  s.run_queue,
  s.table.tasks,
  requeue-asleep s c e,
  v,
  next-Touches s.table.tasks s.table.tasks c (λ i. refl),
)
requeue_lem s w c false l e es v n room =
    let v' = IsQueue-update s.table.tasks s.run_queue l c _ refl v in
    let store = store-Touches s.table.tasks c State.queued (s.table.tasks c).ctxt in
    elim (ℕ_discrete w c) [
      | yes ew ↦ (
        s.run_queue,
        (queued s c).table.tasks,
        requeue-awake s c true e (points_to-== s.swapper w c es ∙ eq→== w c ew),
        rw (eq→== w c ew) v',
        store,
      )
      | no ne ↦
          let (rq, tasks, eq, q, same) = enqueue_lem (queued s c) l c v' n room in
          (
            rq,
            tasks,
            requeue-awake s c false e (points_to-== s.swapper w c es ∙ ne→== w c ne) ∙ eq,
            rw (ne→== w c ne) q,
            Touches-trans s.table.tasks (queued s c).table.tasks tasks c store
                (next-Touches (queued s c).table.tasks tasks c same),
          )
    ]

-- The step from `s` to `s'` that gives the processor to `next`, with the queue `l` left.
pub record Turns (s s' : Sched) (w next : ℕ) (l : List ℕ) : Type 0 where
  pub sched : IsSched s' w l
  pub current : s'.current ≡ some next
  pub runs : (s'.table.tasks next).state ≡ State.running
  pub keeps : SameButSched s.table.tasks s'.table.tasks
  pub others :
      (i : ℕ) → s.current ≢ some i → i ≢ next → (s'.table.tasks i).state ≡ (s.table.tasks i).state

some-current :
    (s : Sched) (t : ℕ) (l : List ℕ)
    → NotIn t l
    → s.current ≡ some t
    → (c : ℕ) → s.current ≡ some c
    → NotIn c l
some-current s t l n e c ec = let same : t ≡ c = cc in rw (← same) n

-- The switch itself, after `t` may have left.
pub switch_to_lem :
    (s0 s : Sched) (w next : ℕ) (l : List ℕ)
    → s.swapper ≡ some w
    → IsQueue s.table.tasks s.run_queue l
    → NotIn w l
    → NotIn next l
    → length l + 1 < w32
    → SameButSched s0.table.tasks s.table.tasks
    → ((i : ℕ) → s0.current ≢ some i → (s.table.tasks i).state ≡ (s0.table.tasks i).state)
    → Turns s0 (switch_to s next) w next l
switch_to_lem s0 s w next l es q nw nn room keeps others =
    let store = store-Touches s.table.tasks next State.running (s.table.tasks next).ctxt in
    record {
      sched = record {
        queue = IsQueue-update s.table.tasks s.run_queue l next _ refl q;
        swapper = es;
        swapper_out = nw;
        current_out = some-current (switch_to s next) next l nn refl;
        room = room;
      };
      current = refl;
      runs = ap (λ (x : Task). x.state) (update_self s.table.tasks next _);
      keeps = SameButSched-trans s0.table.tasks s.table.tasks _ keeps store.0;
      others = λ i ni ne. store.1 i ne ∙ others i ni;
    }

-- The current task leaves for `next`.
pub leave_lem :
    (s0 s : Sched) (w c next : ℕ) (l : List ℕ)
    → s0.current ≡ some c
    → s.swapper ≡ some w
    → IsQueue s.table.tasks s.run_queue l
    → NotIn w l
    → NotIn c l
    → NotIn next l
    → (next ≡ w) ⊎ (next ≢ c)
    → length l + 2 < w32
    → SameButSched s0.table.tasks s.table.tasks
    → ((i : ℕ) → (s.table.tasks i).state ≡ (s0.table.tasks i).state)
    → (points_to s.swapper next && is_running (s.table.tasks c).state) ≡ false
    → (s' : Sched) × (switch_from s (some c) next ≡ some s')
      × Turns s0 s' w next (requeued w (is_sleeping (s.table.tasks c).state) c l)
unfolding switch_from
leave_lem s0 s w c next l ec es q nw nc nn apart room keeps states stays =
    let ct = ((s.table.tasks c).ctxt + 1) % 2 ^ 64 in
    let counted = count_switch s c in
    let store = store-Touches s.table.tasks c (s.table.tasks c).state ct in
    let sleeps = is_sleeping (s.table.tasks c).state in
    let same : (counted.table.tasks c).state ≡ (s.table.tasks c).state =
      ap (λ (x : Task). x.state) (update_self s.table.tasks c _) in
    let (rq, tasks, e, q', touches) =
      requeue_lem counted w c sleeps l (ap is_sleeping same) es
        (IsQueue-update s.table.tasks s.run_queue l c _ refl q) nc (omega arith) in
    let left = with_tasks counted rq tasks in
    (
      switch_to left next,
      rw (stays, e) refl,
      switch_to_lem s0 left w next (requeued w sleeps c l) es q'
          (NotIn-requeued-swapper w sleeps c l nw) (stays_out w c next l sleeps nw nn apart)
          (omega (arith, length-requeued w sleeps c l))
          (SameButSched-trans s0.table.tasks s.table.tasks tasks keeps
            (SameButSched-trans s.table.tasks counted.table.tasks tasks store.0 touches.0))
          (λ i ni.
            let ne : i ≢ c = λ ei. ni (ec ∙ ap some (sym ei)) in
            touches.1 i ne ∙ store.1 i ne ∙ states i),
    )
  where
    stays_out :
        (w c next : ℕ) (l : List ℕ) (sleeps : Bool)
        → NotIn w l
        → NotIn next l
        → (next ≡ w) ⊎ (next ≢ c)
        → NotIn next (requeued w sleeps c l)
    stays_out w c next l sleeps nw nn (inl e) = rw e (NotIn-requeued-swapper w sleeps c l nw)
    stays_out w c next l sleeps nw nn (inr ne) = NotIn-requeued w sleeps c l next nn ne
