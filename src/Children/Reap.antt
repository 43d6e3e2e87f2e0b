-- ===== src/Children/Reap.antt =====
-- `sched_waitpid` of kernel/core/sched.c for any child: the child that is reaped leaves the list of
-- its parent and the task table.
use punix.Base.{
  ℕ, ◌<◌, ◌≡◌, ◌≢◌, inl, inr, refl, sym, ap, subst, ◌∙◌, Option, some, List, [], ◌∷◌, ◌++◌, length,
  All, ◌>>=◌,
}
use punix.Task.{State, Task, pid_none}
use punix.TaskTable.{TaskTable, max_process_cnt, release}
use punix.TaskTable.Inv.{IsTable, InUse}
use punix.TaskTable.Free.{free_lem}
use punix.RunQueue.{Tasks}
use punix.RunQueue.Linked.{NotIn, Distinct}
use punix.Sched.{Sched}
use punix.Children.Search.{Siblings}
use punix.Children.Waitpid.{Link, free_child, reap}
use punix.Children.Unlink.{
  SameButFamily, Unlinked, Siblings-cong, NotIn-All, NotIn-behind, unlink_child_lem,
}

-- The invariant of the table depends on the pids alone.
pub IsTable-cong :
    (t : TaskTable) (tasks : Tasks)
    → ((i : ℕ) → (tasks i).pid ≡ (t.tasks i).pid)
    → IsTable t
    → IsTable (record t { tasks = tasks })
IsTable-cong t tasks same v = record {
  ring = v.ring;
  in_range = v.in_range;
  is_free = λ k h. same _ ∙ v.is_free k h;
  once = v.once;
  listed = λ s h e. v.listed s h (sym (same s) ∙ e);
  named = λ s h. elim (v.named s h) [
    | inl e ↦ inl (same s ∙ e)
    | inr (p, e, low, names) ↦ inr (p, same s ∙ e, low, names)
  ];
  generation = v.generation;
}

-- The child is freed, its siblings stay in their order, and other tasks keep all but their links.
pub record Reaped (s s' : Sched) (parent child : ℕ) (l : List ℕ) : Type 0 where
  pub table : IsTable s'.table
  pub siblings : Siblings s'.table.tasks (s'.table.tasks parent).children l
  pub freed : (s'.table.tasks child).pid ≡ pid_none
  pub pooled : (s'.table.tasks child).state ≡ State.pooled
  pub others : (i : ℕ) → i ≢ child → SameButFamily (s.table.tasks i) (s'.table.tasks i)
  pub queue : s'.run_queue ≡ s.run_queue

NotIn-others :
    (before : List ℕ) (x : ℕ) (after : List ℕ)
    → Distinct (before ++ (x ∷ after))
    → NotIn x (before ++ after)
NotIn-others [] x after d = d.0
NotIn-others (b ∷ bs) x after d =
    (λ e. NotIn-behind b bs x after d.0 (sym e), NotIn-others bs x after d.1)

-- A family: the children of the parent are the list, each once, and each a task in use.
pub record IsFamily (s : Sched) (parent : ℕ) (l : List ℕ) : Type 0 where
  pub table : IsTable s.table
  pub siblings : Siblings s.table.tasks (s.table.tasks parent).children l
  pub distinct : Distinct l
  pub parent_out : NotIn parent l
  pub in_use : All (λ i. (i < max_process_cnt) × InUse s.table i) l

in_use-at :
    (P : ℕ → Type 0) (before : List ℕ) (x : ℕ) (after : List ℕ)
    → All P (before ++ (x ∷ after))
    → P x
in_use-at P [] x after a = a.0
in_use-at P (b ∷ bs) x after a = in_use-at P bs x after a.1

module _ (fuel : ℕ) (s : Sched) (parent child : ℕ) (before after : List ℕ)
    (f : IsFamily s parent (before ++ (child ∷ after))) (enough : length before < fuel) where
  abbrev tasks : Tasks
  tasks = s.table.tasks

  -- The state after the loop and after `task_table_free`.
  module _ (tasks1 : Tasks)
      (u : Unlinked tasks tasks1
        (Link.children_of parent)
        (before ++ after)
        (λ i. (i ≢ parent) × NotIn i before))
      (t : TaskTable) (is : IsTable t) (gone : t.tasks child ≡ release (tasks1 child))
      (rest : (i : ℕ) → i ≢ child → t.tasks i ≡ tasks1 i) where
    parent-ne : parent ≢ child
    parent-ne = NotIn-behind parent before child after f.parent_out

    reaped : Reaped s (record s { table = t }) parent child (before ++ after)
    reaped = record {
      table = is;
      siblings =
          subst (λ p. Siblings t.tasks p (before ++ after))
            (ap (λ (x : Task). x.children) (sym (rest parent parent-ne)))
            (Siblings-cong tasks1 t.tasks (tasks1 parent).children (before ++ after)
              (λ i. i ≢ child) (λ i ne. ap (λ (x : Task). x.next_sibling) (rest i ne))
              (NotIn-All child (before ++ after) (NotIn-others before child after f.distinct))
              u.siblings);
      freed = ap (λ (x : Task). x.pid) gone;
      pooled = ap (λ (x : Task). x.state) gone;
      others = λ i ne. subst (λ x. SameButFamily (tasks i) x) (sym (rest i ne)) (u.others i);
      queue = refl;
    }

  pub reap_lem :
      (s' : Sched) × (reap fuel s parent child
        ≡ some ((tasks child).pid, some (tasks child).exit_status, s'))
      × Reaped s s' parent child (before ++ after)
  unfolding reap
  reap_lem =
      let (tasks1, e, u) =
        unlink_child_lem before fuel tasks (Link.children_of parent) child after enough f.siblings
          f.distinct f.parent_out in
      let same : (i : ℕ) → (tasks1 i).pid ≡ (tasks i).pid =
        λ i. ap (λ (x : Task). x.pid) (u.others i) in
      let (low, (p, owns, small, names)) =
        in_use-at (λ i. (i < max_process_cnt) × InUse s.table i) before child after f.in_use in
      let (t, ef, is, gone, rest) =
        free_lem (record s.table { tasks = tasks1 }) child
          (IsTable-cong s.table tasks1 same f.table) low (p, same child ∙ owns, small, names) in
      (
        record s { table = t },
        ap (λ o. o >>= (λ x. free_child s (tasks child) child x)) e
            ∙ ap
                (λ (o : Option TaskTable). o >>= (λ table.
                  some (
                    (tasks child).pid,
                    some (tasks child).exit_status,
                    record s { table = table },
                  )))
                ef,
        reaped tasks1 u t is gone rest,
      )
