-- ===== src/Children/ForkChild.antt =====
-- `sched_fork` of kernel/core/sched.c as a whole.
use punix.Base.{ℕ, ◌<◌, ◌≡◌, ◌⊎◌, inl, inr, refl, ap, ◌∙◌, arith, Option, some, List, ◌>>=◌}
use punix.Base.Int.{ℤ, pos}
use punix.Task.{Task}
use punix.TaskTable.{TaskTable, max_process_cnt, alloc}
use punix.TaskTable.Inv.{InUse}
use punix.TaskTable.Alloc.{Allocates, exhausted, claims, alloc-Allocates}
use punix.RunQueue.{Tasks}
use punix.Sched.{Sched, with_tasks, enqueue}
use punix.Sched.Inv.{enqueue_lem}
use punix.Wait.{Waits}
use punix.Children.Fork.{signal_init, fork_into, fork, no_memory}
use punix.Children.ForkState.{
  CanFork, HasForked, s2, inherits, IsQueue-family, not_queued, has_forked,
}

-- Every slot is in use and nothing changes, or a free slot has become the child.
abbrev pub ForksTo :
    (ℕ → ℕ)
    → (ℕ → ℕ)
    → Waits
    → Sched
    → ℕ
    → ℕ
    → List ℕ
    → List ℕ
    → List ℕ
    → List ℕ
    → Option (ℤ × Waits × Sched)
    → Type 0
ForksTo wait_exit wait_child waits s w p l ls name cwd r =
    ((r ≡ some (no_memory, waits, s)) × ((i : ℕ) → i < max_process_cnt → InUse s.table i))
    ⊎ ((c : ℕ) × (pid : ℕ) × (s' : Sched) × (r
          ≡ some (pos pid, signal_init wait_exit wait_child waits c, s'))
        × HasForked s s' w p c pid l ls name cwd)

module _ (wait_exit wait_child : ℕ → ℕ) (waits : Waits) (s : Sched) (w p : ℕ)
    (l ls name cwd : List ℕ) where
  start :
      (o : Option (ℕ × TaskTable))
      → s.current ≡ some p
      → alloc s.table ≡ o
      → fork wait_exit wait_child waits s ≡ fork_into wait_exit wait_child waits s p o
  unfolding fork
  start o ec eo = rw (ec, eo) refl

  abbrev after_enqueue : ℕ → Option Sched → Option (ℤ × Waits × Sched)
  after_enqueue c o =
      o >>= (λ s'. some ((s'.table.tasks c).pid, signal_init wait_exit wait_child waits c, s'))

  -- `sched_fork` in a running task whose strings fit the buffers of the free slots, with its children
  -- and the run queue lists of tasks in use: it returns -ENOMEM and changes nothing if every slot is
  -- in use. Else a free slot becomes the first child of the task and the last in the run queue, with
  -- the strings, the terminal and the bounds of the heap of its parent; its pid is returned, and
  -- beyond that only links of the lists change.
  pub fork_lem :
      CanFork s w p l ls name cwd
      → ForksTo wait_exit wait_child waits s w p l ls name cwd (fork wait_exit wait_child waits s)
  fork_lem f = go (alloc s.table) refl (alloc-Allocates s.table f.family.table)
    where
      go :
          (o : Option (ℕ × TaskTable))
          → alloc s.table ≡ o
          → Allocates s.table o
          → ForksTo wait_exit wait_child waits s w p l ls name cwd
              (fork wait_exit wait_child waits s)
      go o eo (exhausted q all) =
          inl (start o f.current eo ∙ ap (fork_into wait_exit wait_child waits s p) q, all)
      go o eo (claims c t pid e is low unused mine small names others) =
          let (rq, tasks3, ee, q, same) =
            enqueue_lem (s2 s w p l ls name cwd f t c pid is low unused mine small names others) l c
              (IsQueue-family s w p l ls name cwd f t c pid is low unused mine small names others)
              (not_queued s w p l ls name cwd f t c pid is low unused mine small names others)
              (omega (arith, f.room)) in
          let s3 =
            with_tasks (s2 s w p l ls name cwd f t c pid is low unused mine small names others) rq
              tasks3 in
          let done =
            has_forked s w p l ls name cwd f t c pid is low unused mine small names others rq tasks3
              q same in
          inr (
            c,
            pid,
            s3,
            start o f.current eo
                ∙ ap (fork_into wait_exit wait_child waits s p) e
                ∙ ap
                    (λ (o : Option Tasks).
                      after_enqueue c
                        (o >>= (λ x. enqueue (record s { table = record t { tasks = x } }) c)))
                    (inherits s w p l ls name cwd f t c pid is low unused mine small names others)
                ∙ ap (after_enqueue c) ee
                ∙ ap (λ n. some (n, signal_init wait_exit wait_child waits c, s3))
                    (ap (λ (x : Task). x.pid) done.child),
            done,
          )
