-- ===== src/Sched/Round.antt =====
-- `sched_schedule` is a round robin over the run queue.
use punix.Base.{
  ℕ, zero, suc, ◌+◌, ◌%◌, ◌^◌, ◌≡◌, refl, sym, ap, ap₂, ◌∙◌, inl, inr, Option, none, some, List, [],
  ◌∷◌, ◌++◌, Bool, true, false, length, arith, update_self, ◌>>=◌, eq→==, ne→==, append_assoc,
  ℕ_discrete,
}
use punix.Task.{State, Task}
use punix.RunQueue.{RunQueue, Tasks, poll, set_next}
use punix.RunQueue.Ops.{set_next-SameButNext, poll_lem, poll-empty}
use punix.Sched.{
  Sched, with_tasks, count_switch, switch_to, switch_from, schedule, is_sleeping, is_running,
}
use punix.Sched.Inv.{IsSched, turn, SameButNext→SameButSched, IsQueue-update}
use punix.Sched.Turn.{Turns, switch_to_lem, leave_lem, points_to-==, store-Touches}

-- The state of a task that there may be.
abbrev pub state_is : (State → Bool) → Sched → Option ℕ → Bool
state_is test s none = false
state_is test s (some c) = test (s.table.tasks c).state

polled-none :
    (s : Sched) (w : ℕ) (cur : Option ℕ)
    → s.current ≡ cur
    → s.swapper ≡ some w
    → poll s.run_queue s.table.tasks ≡ some (none, s.run_queue, s.table.tasks)
    → schedule s ≡ switch_from s cur w
unfolding schedule
polled-none s w cur ec es e = rw e (ap₂ (λ p q. p >>= (λ next. switch_from s q next)) es ec)

polled-some :
    (s : Sched) (x : ℕ) (cur : Option ℕ) (rq : RunQueue) (tasks : Tasks)
    → s.current ≡ cur
    → poll s.run_queue s.table.tasks ≡ some (some x, rq, tasks)
    → schedule s ≡ switch_from (with_tasks s rq tasks) cur x
unfolding schedule
polled-some s x cur rq tasks ec e = rw e (ap (λ p. switch_from (with_tasks s rq tasks) p x) ec)

is_running-running : (st : State) → is_running st ≡ true → st ≡ State.running
is_running-running State.running e = refl
is_running-running State.pooled e = absurd (cc)
is_running-running State.queued e = absurd (cc)
is_running-running State.interruptible e = absurd (cc)
is_running-running State.uninterruptible e = absurd (cc)
is_running-running State.zombie e = absurd (cc)

-- A running task keeps the processor when no other is queued.
stay_lem :
    (s : Sched) (w c : ℕ)
    → IsSched s w []
    → s.current ≡ some c
    → is_running (s.table.tasks c).state ≡ true
    → (switch_from s (some c) w ≡ some (count_switch s c)) × Turns s (count_switch s c) w c []
unfolding switch_from
stay_lem s w c v ec er =
    let ct = ((s.table.tasks c).ctxt + 1) % 2 ^ 64 in
    let store = store-Touches s.table.tasks c (s.table.tasks c).state ct in
    (
      rw (er, points_to-== s.swapper w w v.swapper, eq→== w w refl) refl,
      record {
        sched = record {
          queue = IsQueue-update s.table.tasks s.run_queue [] c _ refl v.queue;
          swapper = v.swapper;
          swapper_out = tt;
          current_out = λ c' e'. tt;
          room = v.room;
        };
        current = ec;
        runs =
            ap (λ (x : Task). x.state) (update_self s.table.tasks c _)
            ∙ is_running-running (s.table.tasks c).state er;
        keeps = store.0;
        others = λ i ni ne. store.1 i ne;
      },
    )

-- The states of the tasks survive `run_queue_poll`.
poll-states :
    (s : Sched) (x i : ℕ) → (set_next s.table.tasks x none i).state ≡ (s.table.tasks i).state
poll-states s x i = ap (λ (t : Task). t.state) (set_next-SameButNext s.table.tasks x none i)

-- The turn, by the current task and the queue.
turn_from :
    (s : Sched) (w : ℕ) (runs : Bool) (cur : Option ℕ) (l : List ℕ)
    → s.current ≡ cur
    → state_is is_running s cur ≡ runs
    → IsSched s w l
    → let r = turn w (state_is is_sleeping s cur) runs cur l in
      (s' : Sched) × (schedule s ≡ some s') × Turns s s' w r.0 r.1
unfolding switch_from
turn_from s w runs none [] ec er v = (
  switch_to s w,
  polled-none s w none ec v.swapper (poll-empty s.table.tasks s.run_queue v.queue),
  switch_to_lem s s w w [] v.swapper v.queue tt tt v.room (λ i. refl) (λ i ni. refl),
)
turn_from s w runs none (x ∷ xs) ec er v =
    let (rq, e, q) = poll_lem s.table.tasks s.run_queue x xs v.queue in
    let s1 = with_tasks s rq (set_next s.table.tasks x none) in
    (
      switch_to s1 x,
      polled-some s x none rq _ ec e,
      switch_to_lem s s1 w x xs v.swapper q v.swapper_out.1 v.queue.distinct.0
          (omega (arith, v.room))
          (SameButNext→SameButSched s.table.tasks s1.table.tasks
            (set_next-SameButNext s.table.tasks x none))
          (λ i ni. poll-states s x i),
    )
turn_from s w true (some c) [] ec er v =
    let (e, t) = stay_lem s w c v ec er in
    (
      count_switch s c,
      polled-none s w (some c) ec v.swapper (poll-empty s.table.tasks s.run_queue v.queue) ∙ e,
      t,
    )
turn_from s w false (some c) [] ec er v =
    let (s', e, t) =
      leave_lem s s w c w [] ec v.swapper v.queue tt tt tt (inl refl) (omega arith) (λ i. refl)
        (λ i. refl) (rw (er, points_to-== s.swapper w w v.swapper, eq→== w w refl) refl) in
    (
      s',
      polled-none s w (some c) ec v.swapper (poll-empty s.table.tasks s.run_queue v.queue) ∙ e,
      t,
    )
turn_from s w runs (some c) (x ∷ xs) ec er v =
    let (rq, e, q) = poll_lem s.table.tasks s.run_queue x xs v.queue in
    let s1 = with_tasks s rq (set_next s.table.tasks x none) in
    let out = v.current_out c ec in
    let (s', e', t) =
      leave_lem s s1 w c x xs ec v.swapper q v.swapper_out.1 out.1 v.queue.distinct.0
        (inr (λ ex. out.0 (sym ex))) (omega (arith, v.room))
        (SameButNext→SameButSched s.table.tasks s1.table.tasks
          (set_next-SameButNext s.table.tasks x none))
        (λ i. poll-states s x i)
        (rw (points_to-== s.swapper w x v.swapper, ne→== w x v.swapper_out.0) refl) in
    (s', polled-some s x (some c) rq _ ec e ∙ e', rw (← ap is_sleeping (poll-states s x c)) t)

-- `sched_schedule` always finds a task. It follows the round robin, keeps the invariant, leaves
-- the chosen task running, and changes no other fields of the tasks, nor the state of a third one.
pub schedule_lem :
    (s : Sched) (w : ℕ) (l : List ℕ)
    → IsSched s w l
    → let r =
        turn w (state_is is_sleeping s s.current) (state_is is_running s s.current) s.current l in
      (s' : Sched) × (schedule s ≡ some s') × Turns s s' w r.0 r.1
schedule_lem s w l v = turn_from s w (state_is is_running s s.current) s.current l refl refl v

-- `n` calls of `sched_schedule` in a row.
abbrev pub schedules : ℕ → Sched → Option Sched
schedules zero s = some s
schedules (suc n) s = schedule s >>= schedules n

-- A task moves up by one place at each turn.
turn-moves :
    (w : ℕ) (sleeps runs : Bool) (cur : Option ℕ) (x : ℕ) (xs : List ℕ) (t : ℕ) (ys : List ℕ)
    → (zs : List ℕ) × ((turn w sleeps runs cur (x ∷ (xs ++ (t ∷ ys)))).1 ≡ xs ++ (t ∷ zs))
turn-moves w sleeps runs none x xs t ys = (ys, refl)
turn-moves w true runs (some c) x xs t ys = (ys, refl)
turn-moves w false runs (some c) x xs t ys = elim (ℕ_discrete w c) [
  | yes e ↦ (ys, rw (eq→== w c e) refl)
  | no ne ↦ (ys ++ (c ∷ []), rw (ne→== w c ne) (append_assoc xs (t ∷ ys) (c ∷ [])))
]

turn-first :
    (w : ℕ) (sleeps runs : Bool) (cur : Option ℕ) (t : ℕ) (ys : List ℕ)
    → (turn w sleeps runs cur (t ∷ ys)).0 ≡ t
turn-first w sleeps runs none t ys = refl
turn-first w sleeps runs (some c) t ys = refl

-- No task starves: a task that waits behind `xs` is the current one and runs after one more call of
-- `sched_schedule` than `xs` has tasks.
pub schedules-runs :
    (s : Sched) (w : ℕ) (xs : List ℕ) (t : ℕ) (ys : List ℕ)
    → IsSched s w (xs ++ (t ∷ ys))
    → (s' : Sched) × (schedules (suc (length xs)) s ≡ some s')
      × (s'.current ≡ some t)
      × ((s'.table.tasks t).state ≡ State.running)
schedules-runs s w [] t ys v =
    let (s', e, turns) = schedule_lem s w (t ∷ ys) v in
    let at =
      turn-first w (state_is is_sleeping s s.current) (state_is is_running s s.current) s.current t
        ys in
    (
      s',
      rw e refl,
      turns.current ∙ ap some at,
      ap (λ i. (s'.table.tasks i).state) (sym at) ∙ turns.runs,
    )
schedules-runs s w (x ∷ xs) t ys v =
    let (s1, e, turns) = schedule_lem s w (x ∷ (xs ++ (t ∷ ys))) v in
    let (zs, at) =
      turn-moves w (state_is is_sleeping s s.current) (state_is is_running s s.current) s.current x
        xs t ys in
    let (s', e', at', r) = schedules-runs s1 w xs t zs (rw (← at) turns.sched) in
    (s', rw e e', at', r)
