-- ===== src/Children/Forked.antt =====
-- `sched_fork` of kernel/core/sched.c against the task table, the run queue and the children.
use punix.Base.{
  ℕ, ◌<◌, ◌≡◌, ◌≢◌, refl, sym, ap, subst, ◌∙◌, some, List, [], ◌∷◌, All, update, update_self,
  update_ne, ℕ_discrete,
}
use punix.Base.Int.{ℤ}
use punix.Task.{Task, pid_none}
use punix.TaskTable.{TaskTable, max_process_cnt}
use punix.TaskTable.Inv.{InUse, pos-ne-none}
use punix.RunQueue.{Tasks}
use punix.RunQueue.Linked.{NotIn, IsQueue, Chain-cong}
use punix.Sched.{Sched}
use punix.Children.Search.{Siblings}
use punix.Children.Unlink.{Siblings-cong, NotIn-All}
use punix.Children.Fork.{child_task, with_child}

-- A task in use is not the free slot `c`.
pub in_use-ne : (t : TaskTable) (c i : ℕ) → (t.tasks c).pid ≡ pid_none → InUse t i → i ≢ c
in_use-ne t c i free (p, owns, _, _) e =
    pos-ne-none p (sym owns ∙ ap (λ j. (t.tasks j).pid) e ∙ free)

pub All-NotIn :
    (t : TaskTable) (c : ℕ) (l : List ℕ)
    → (t.tasks c).pid ≡ pid_none
    → All (λ i. (i < max_process_cnt) × InUse t i) l
    → NotIn c l
All-NotIn t c [] free a = tt
All-NotIn t c (x ∷ xs) free a = (λ e. in_use-ne t c x free a.0.1 (sym e), All-NotIn t c xs free a.1)

-- The tasks before the fork `tasks`, the slot claimed in `tasks1`, and the family linked.
module _ (tasks tasks1 : Tasks) (p c : ℕ) (name cwd : List ℕ) (pid : ℤ) (ne : p ≢ c)
    (mine : tasks1 c ≡ record (tasks c) { pid = pid })
    (others : (i : ℕ) → i ≢ c → tasks1 i ≡ tasks i) where
  abbrev pub linked : Tasks
  linked = with_child tasks1 p c name cwd

  pub at_parent : linked p ≡ record (tasks p) { children = some c }
  at_parent =
      update_self (update tasks1 c (child_task tasks1 p (tasks1 c) name cwd)) p _
      ∙ ap (λ (t : Task). record t { children = some c }) (others p ne)

  pub at_child : linked c ≡ child_task tasks p (record (tasks c) { pid = pid }) name cwd
  at_child =
      update_ne (update tasks1 c (child_task tasks1 p (tasks1 c) name cwd)) p c _ (λ e. ne (sym e))
      ∙ update_self tasks1 c _
      ∙ ap (λ (t : Task). child_task tasks1 p t name cwd) mine
      ∙ ap (λ (t : Task). child_task (λ i. t) p (record (tasks c) { pid = pid }) name cwd)
          (others p ne)

  pub at_rest : (i : ℕ) → i ≢ p → i ≢ c → linked i ≡ tasks i
  at_rest i np nc =
      update_ne (update tasks1 c (child_task tasks1 p (tasks1 c) name cwd)) p i _ np
      ∙ update_ne tasks1 c i _ nc
      ∙ others i nc

  -- What does not depend on the task: a field that neither the parent nor the child changes.
  pub kept_field {ℓ} :
      {A : Type ℓ} (f : Task → A)
      → ((t : Task) → f (record t { children = some c }) ≡ f t)
      → f (linked c) ≡ f (tasks c)
      → (i : ℕ) → f (linked i) ≡ f (tasks i)
  kept_field f parent child i = elim (ℕ_discrete i c) [
    | yes e ↦ ap (λ j. f (linked j)) e ∙ child ∙ ap (λ j. f (tasks j)) (sym e)
    | no nc ↦ elim (ℕ_discrete i p) [
      | yes e ↦
          ap (λ j. f (linked j)) e
          ∙ ap f at_parent
          ∙ parent (tasks p)
          ∙ ap (λ j. f (tasks j)) (sym e)
      | no np ↦ ap f (at_rest i np nc)
    ]
  ]

  pub next_kept : (i : ℕ) → (linked i).next ≡ (tasks i).next
  next_kept = kept_field (λ t. t.next) (λ t. refl) (ap (λ (t : Task). t.next) at_child)

  pub pid_kept : (i : ℕ) → (linked i).pid ≡ (tasks1 i).pid
  pid_kept i = elim (ℕ_discrete i c) [
    | yes e ↦
        ap (λ j. (linked j).pid) e
        ∙ ap (λ (t : Task). t.pid) at_child
        ∙ ap (λ (t : Task). t.pid) (sym mine)
        ∙ ap (λ j. (tasks1 j).pid) (sym e)
    | no nc ↦ elim (ℕ_discrete i p) [
      | yes e ↦
          ap (λ j. (linked j).pid) e
          ∙ ap (λ (t : Task). t.pid) at_parent
          ∙ ap (λ (t : Task). t.pid) (sym (others p ne))
          ∙ ap (λ j. (tasks1 j).pid) (sym e)
      | no np ↦ ap (λ (t : Task). t.pid) (at_rest i np nc ∙ sym (others i nc))
    ]
  ]

  pub sibling_kept : (i : ℕ) → i ≢ c → (linked i).next_sibling ≡ (tasks i).next_sibling
  sibling_kept i nc = elim (ℕ_discrete i p) [
    | yes e ↦
        ap (λ j. (linked j).next_sibling) e
        ∙ ap (λ (t : Task). t.next_sibling) at_parent
        ∙ ap (λ j. (tasks j).next_sibling) (sym e)
    | no np ↦ ap (λ (t : Task). t.next_sibling) (at_rest i np nc)
  ]

  -- The new child stands in front of its siblings.
  pub Siblings-linked :
      (ls : List ℕ)
      → NotIn c ls
      → Siblings tasks (tasks p).children ls
      → Siblings linked (linked p).children (c ∷ ls)
  Siblings-linked ls n s = (
    ap (λ (t : Task). t.children) at_parent,
    subst (λ q. Siblings linked q ls) (ap (λ (t : Task). t.next_sibling) (sym at_child))
        (Siblings-cong tasks linked (tasks p).children ls (λ i. i ≢ c) sibling_kept
          (NotIn-All c ls n) s),
  )

  pub IsQueue-linked :
      (s : Sched) (l : List ℕ) → IsQueue tasks s.run_queue l → IsQueue linked s.run_queue l
  IsQueue-linked s l q = record {
    chain = Chain-cong tasks linked s.run_queue.first l next_kept q.chain;
    last = q.last;
    len = q.len;
    distinct = q.distinct;
    small = q.small;
  }
