-- ===== src/Children/ForkState.antt =====
-- The state that `sched_fork` of kernel/core/sched.c leaves.
use punix.Base.{
  ℕ, suc, ◌+◌, ◌<◌, ◌≡◌, ◌≢◌, ◌^◌, ◌%◌, ap₂, sym, ap, subst, ◌∙◌, arith, some, List, [], ◌∷◌, ◌++◌,
  length, length-append, drop, All, if-false, leb, ◌>>=◌,
}
use punix.Base.Int.{pos}
use punix.FreeRing.{w32}
use punix.Kutils.Strings.{strcpy}
use punix.Kutils.Strings.Text.{IsText, cstr}
use punix.Kutils.Strings.Copies.{strcpy_lem}
use punix.Task.{Task, pid_none}
use punix.TaskTable.{TaskTable, max_process_cnt}
use punix.TaskTable.Inv.{IsTable, InUse}
use punix.RunQueue.{RunQueue, Tasks}
use punix.RunQueue.Linked.{NotIn, IsQueue, NotIn-snoc}
use punix.RunQueue.Ops.{SameButNext}
use punix.Sched.{Sched, with_tasks}
use punix.Sched.Inv.{IsSched}
use punix.Children.Search.{Siblings}
use punix.Children.Unlink.{Siblings-cong, NotIn-All}
use punix.Children.Reap.{IsFamily, IsTable-cong}
use punix.Children.Fork.{child_task, with_child, inherit}
use punix.Children.Forked.{
  in_use-ne, All-NotIn, linked, at_parent, at_child, at_rest, pid_kept, Siblings-linked,
  IsQueue-linked,
}

-- A task `p` runs, whose children are `ls`; the tasks `l` wait for the processor. The strings of the
-- running task are texts that fit the buffers of every free slot.
pub record CanFork (s : Sched) (w p : ℕ) (l ls name cwd : List ℕ) : Type 0 where
  pub current : s.current ≡ some p
  pub running : InUse s.table p
  pub sched : IsSched s w l
  pub room : length l + 2 < w32
  pub swapper : InUse s.table w
  pub queued : All (λ i. (i < max_process_cnt) × InUse s.table i) l
  pub family : IsFamily s p ls
  pub name_text : IsText name
  pub cwd_text : IsText cwd
  pub name_here : (rest : List ℕ) × ((s.table.tasks p).name ≡ cstr name rest)
  pub cwd_here : (rest : List ℕ) × ((s.table.tasks p).cwd ≡ cstr cwd rest)
  pub fits :
      (c : ℕ)
      → (s.table.tasks c).pid ≡ pid_none
      → (length name < length (s.table.tasks c).name) × (length cwd < length (s.table.tasks c).cwd)

-- The free slot `c` has become the first child of `p` and the last task that waits; beyond that only
-- links have changed.
pub record HasForked (s s' : Sched) (w p c pid : ℕ) (l ls name cwd : List ℕ) : Type 0 where
  pub was_free : (s.table.tasks c).pid ≡ pid_none
  pub family : IsFamily s' p (c ∷ ls)
  pub sched : IsSched s' w (l ++ (c ∷ []))
  pub child :
      s'.table.tasks c
      ≡ record (child_task s.table.tasks p
          (record (s.table.tasks c) { pid = pos pid })
          (cstr name (drop (suc (length name)) (s.table.tasks c).name))
          (cstr cwd (drop (suc (length cwd)) (s.table.tasks c).cwd))) {
            next = (s'.table.tasks c).next;
          }
  pub parent :
      s'.table.tasks p
      ≡ record (s.table.tasks p) { children = some c; next = (s'.table.tasks p).next }
  pub others :
      (i : ℕ)
      → i ≢ p
      → i ≢ c
      → s'.table.tasks i ≡ record (s.table.tasks i) { next = (s'.table.tasks i).next }

module _ (s : Sched) (w p : ℕ) (l ls name cwd : List ℕ) (f : CanFork s w p l ls name cwd) where
  abbrev pub tasks : Tasks
  tasks = s.table.tasks

  module _ (t : TaskTable) (c pid : ℕ) (is : IsTable t) (low : c < max_process_cnt)
      (unused : (tasks c).pid ≡ pid_none) (mine : t.tasks c ≡ record (tasks c) { pid = pos pid })
      (small : pid < 2 ^ 31) (names : pid % max_process_cnt ≡ c)
      (others : (i : ℕ) → i ≢ c → t.tasks i ≡ tasks i) where
    pub ne : p ≢ c
    ne = in_use-ne s.table c p unused f.running

    abbrev pub name' : List ℕ
    name' = cstr name (drop (suc (length name)) (tasks c).name)

    abbrev pub cwd' : List ℕ
    cwd' = cstr cwd (drop (suc (length cwd)) (tasks c).cwd)

    abbrev pub family_tasks : Tasks
    family_tasks = linked tasks t.tasks p c name' cwd' (pos pid) ne mine others

    copied :
        (dest text rest : List ℕ)
        → IsText text
        → length text < length dest
        → strcpy dest (cstr text rest) ≡ some (cstr text (drop (suc (length text)) dest))
    copied dest text rest is_text h =
        strcpy_lem text rest dest is_text
        ∙ if-false (leb (length dest) (length text)) _ _ (ground arith)

    pub inherits : inherit t.tasks p c ≡ some family_tasks
    inherits =
        let room = f.fits c unused in
        let (ra, ea) = f.name_here in
        let (rb, eb) = f.cwd_here in
        let n : strcpy (t.tasks c).name (t.tasks p).name ≡ some name' =
          ap₂ strcpy (ap (λ (x : Task). x.name) mine) (ap (λ (x : Task). x.name) (others p ne) ∙ ea)
          ∙ copied (tasks c).name name ra f.name_text room.0 in
        let d : strcpy (t.tasks c).cwd (t.tasks p).cwd ≡ some cwd' =
          ap₂ strcpy (ap (λ (x : Task). x.cwd) mine) (ap (λ (x : Task). x.cwd) (others p ne) ∙ eb)
          ∙ copied (tasks c).cwd cwd rb f.cwd_text room.1 in
        ap
          (λ o. o >>= (λ a.
            strcpy (t.tasks c).cwd (t.tasks p).cwd >>= (λ b. some (with_child t.tasks p c a b))))
          n
        ∙ ap (λ o. o >>= (λ b. some (with_child t.tasks p c name' b))) d

    abbrev pub s2 : Sched
    s2 = record s { table = record t { tasks = family_tasks } }

    pub IsQueue-family : IsQueue family_tasks s.run_queue l
    IsQueue-family =
        IsQueue-linked tasks t.tasks p c name' cwd' (pos pid) ne mine others s l f.sched.queue

    pub not_queued : NotIn c l
    not_queued = All-NotIn s.table c l unused f.queued

    not_child : NotIn c ls
    not_child = All-NotIn s.table c ls unused f.family.in_use

    -- The state when the child is queued.
    module _ (rq : RunQueue) (tasks3 : Tasks) (q : IsQueue tasks3 rq (l ++ (c ∷ [])))
        (same : SameButNext family_tasks tasks3) where
      abbrev pub s3 : Sched
      s3 = with_tasks s2 rq tasks3

      pid_same : (i : ℕ) → (tasks3 i).pid ≡ (t.tasks i).pid
      pid_same i =
          ap (λ (x : Task). x.pid) (same i)
          ∙ pid_kept tasks t.tasks p c name' cwd' (pos pid) ne mine others i

      used : (i : ℕ) → i ≢ c → InUse s.table i → InUse s3.table i
      used i nc (n, owns, lt, at) =
          (n, pid_same i ∙ ap (λ (x : Task). x.pid) (others i nc) ∙ owns, lt, at)

      all_used :
          (xs : List ℕ)
          → NotIn c xs
          → All (λ i. (i < max_process_cnt) × InUse s.table i) xs
          → All (λ i. (i < max_process_cnt) × InUse s3.table i) xs
      all_used [] n a = tt
      all_used (x ∷ xs) n a = ((a.0.0, used x (λ e. n.0 (sym e)) a.0.1), all_used xs n.1 a.1)

      family : IsFamily s3 p (c ∷ ls)
      family = record {
        table = IsTable-cong t tasks3 pid_same is;
        siblings =
            let links =
              Siblings-linked tasks t.tasks p c name' cwd' (pos pid) ne mine others ls not_child
                f.family.siblings in
            (
              ap (λ (x : Task). x.children) (same p) ∙ links.0,
              subst (λ z. Siblings tasks3 z ls) (ap (λ (x : Task). x.next_sibling) (sym (same c)))
                  (Siblings-cong family_tasks tasks3 (family_tasks c).next_sibling ls (λ i. i ≢ c)
                    (λ i nc. ap (λ (x : Task). x.next_sibling) (same i)) (NotIn-All c ls not_child)
                    links.1),
            );
        distinct = (not_child, f.family.distinct);
        parent_out = (ne, f.family.parent_out);
        in_use = (
          (low, (pid, pid_same c ∙ ap (λ (x : Task). x.pid) mine, small, names)),
          all_used ls not_child f.family.in_use,
        );
      }

      sched : IsSched s3 w (l ++ (c ∷ []))
      sched = record {
        queue = q;
        swapper = f.sched.swapper;
        swapper_out = NotIn-snoc w c l f.sched.swapper_out (in_use-ne s.table c w unused f.swapper);
        current_out = λ x e.
            NotIn-snoc x c l (f.sched.current_out x e)
              (λ ec. let h = sym f.current ∙ e in let px : p ≡ x = cc in ne (px ∙ ec));
        room = omega (arith, length-append l (c ∷ []), f.room);
      }

      pub has_forked : HasForked s s3 w p c pid l ls name cwd
      has_forked = record {
        was_free = unused;
        family = family;
        sched = sched;
        child =
            same c
            ∙ ap (λ (x : Task). record x { next = (tasks3 c).next })
                (at_child tasks t.tasks p c name' cwd' (pos pid) ne mine others);
        parent =
            same p
            ∙ ap (λ (x : Task). record x { next = (tasks3 p).next })
                (at_parent tasks t.tasks p c name' cwd' (pos pid) ne mine others);
        others = λ i np nc.
            same i
            ∙ ap (λ (x : Task). record x { next = (tasks3 i).next })
                (at_rest tasks t.tasks p c name' cwd' (pos pid) ne mine others i np nc);
      }
