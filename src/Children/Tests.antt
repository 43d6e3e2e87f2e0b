-- ===== src/Children/Tests.antt =====
-- The searches at a parent, task 1, with the children 3 and 2, of which 2 is a zombie.
use punix.Base.{
  sym, inl, ◌≢◌, ◌*◌, ◌+◌, replicate, if-true, if-false, ne→==, eq→==, ℕ_discrete, ℕ, ◌<◌, none,
  inr, ◌≡◌, ◌==◌, refl, Option, some, [], ◌∷◌, arith, if◌then◌else◌,
}
use punix.Base.Int.{pos, negsuc}
use punix.Task.{State, blank}
use punix.RunQueue.{Tasks}
use punix.TaskTable.Inv.{InUse, IsTable}
use punix.Sched.{Sched}
use punix.Children.Waitpid.{waitpid}
use punix.Children.Reap.{IsFamily}
use punix.Wait.{Waits}
use punix.Children.Fork.{fork}
use punix.Children.ForkState.{CanFork}
use punix.Children.ForkChild.{ForksTo, fork_lem}
use punix.Children.AnyChild.{Waited, waitpid-any}
use punix.Children.{find_child_by_pid, find_zombie_child, same_pid, is_zombie}
use punix.Children.Search.{IsFirst, find_child_by_pid-find_zombie_child}

abbrev family : Tasks
family i =
    let task = record blank { pid = pos i } in
    if i == 1
    then record task { children = some 3 }
    else if i == 3
    then record task { next_sibling = some 2 }
    else record task { state = State.zombie }

find_child_by_pid-find_zombie_child_example :
    ((r : Option ℕ) × (find_child_by_pid 3 family 1 (pos 2) ≡ some r)
      × IsFirst (λ task. same_pid task.pid (pos 2)) family (3 ∷ 2 ∷ []) r)
    × ((r : Option ℕ) × (find_zombie_child 3 family 1 ≡ some r)
        × IsFirst (λ task. is_zombie task.state) family (3 ∷ 2 ∷ []) r)
find_child_by_pid-find_zombie_child_example =
    find_child_by_pid-find_zombie_child 3 family 1 (pos 2) (3 ∷ 2 ∷ []) (omega arith)
      (refl, (refl, refl))

-- A table with every slot in use: task 1 has the children 3 and 2, of which 2 has exited with 9.
abbrev tasks : Tasks
tasks i = record blank {
  pid = pos i;
  children = if i == 1 then some 3 else none;
  next_sibling = if i == 3 then some 2 else none;
  state = if i == 2 then State.zombie else State.queued;
  exit_status = if i == 2 then pos 9 else pos 0;
}

abbrev parent_runs : Sched
parent_runs = record {
  current = some 1;
  ctxt = 7;
  table = record {
    ring = record { slots = λ i. i; head = 64; tail = 64 };
    tasks = tasks;
    generation = λ i. 1;
  };
  run_queue = record { first = none; last = none; len = 0 };
  swapper = some 0;
}

in_use : (i : ℕ) → i < 64 → InUse parent_runs.table i
in_use i h = (i, refl, omega arith, omega arith)

table-IsTable : IsTable parent_runs.table
table-IsTable = record {
  ring = record { head_word = omega arith; tail_word = omega arith; fits = omega arith };
  in_range = λ k h. absurd (omega (arith, h));
  is_free = λ k h. absurd (omega (arith, h));
  once = λ j k hj hk e. absurd (omega (arith, hj));
  listed = λ s h e. absurd (cc);
  named = λ s h. inr (in_use s h);
  generation = λ s h. omega arith;
}

parent_runs-IsFamily : IsFamily parent_runs 1 (3 ∷ 2 ∷ [])
parent_runs-IsFamily = record {
  table = table-IsTable;
  siblings = (refl, (refl, refl));
  distinct = ((omega arith, tt), (tt, tt));
  parent_out = (omega arith, (omega arith, tt));
  in_use = ((omega arith, in_use 3 (omega arith)), ((omega arith, in_use 2 (omega arith)), tt));
}

waitpid-any_example :
    Waited parent_runs 1 (3 ∷ 2 ∷ []) 1 (waitpid 3 parent_runs 1 (negsuc 0) (pos 1))
waitpid-any_example =
    waitpid-any 3 parent_runs 1 1 (omega arith) (3 ∷ 2 ∷ []) parent_runs-IsFamily (omega arith)

-- Slot 5 alone is free; task 1 runs, with the children 3 and 2, and task 4 waits.
abbrev workers : Tasks
workers i = record blank {
  pid = if i == 5 then negsuc 0 else pos i;
  children = if i == 1 then some 3 else none;
  next_sibling = if i == 3 then some 2 else none;
  state = State.queued;
  name = 97 ∷ replicate 63 0;
  cwd = 47 ∷ replicate 63 0;
}

abbrev one_free : Sched
one_free = record {
  current = some 1;
  ctxt = 7;
  table = record {
    ring = record { slots = λ i. 5; head = 0; tail = 1 };
    tasks = workers;
    generation = λ i. 1;
  };
  run_queue = record { first = some 4; last = some 4; len = 1 };
  swapper = some 0;
}

worker : (i : ℕ) → i < 64 → i ≢ 5 → InUse one_free.table i
worker i h ne = (i, if-false (i == 5) _ _ (ne→== i 5 ne), omega arith, omega arith)

one_free-IsTable : IsTable one_free.table
one_free-IsTable = record {
  ring = record { head_word = omega arith; tail_word = omega arith; fits = omega arith };
  in_range = λ k h. omega arith;
  is_free = λ k h. refl;
  once = λ j k hj hk e. omega (arith, hj, hk);
  listed = λ s h e. elim (ℕ_discrete s 5) [
    | yes is ↦ (0, omega arith, sym is)
    | no ne ↦
        (let owns : (workers s).pid ≡ pos s = if-false (s == 5) _ _ (ne→== s 5 ne) in absurd (cc))
  ];
  named = λ s h. elim (ℕ_discrete s 5) [
    | yes is ↦ inl (if-true (s == 5) _ _ (eq→== s 5 is))
    | no ne ↦ inr (worker s h ne)
  ];
  generation = λ s h. omega arith;
}

abbrev no_waits : Waits
no_waits = record {
  queues = λ q. record { head = none; tail = none };
  entries = λ e. record { task = none; prev = none; next = none; queue = none };
}

one_free-CanFork : CanFork one_free 0 1 (4 ∷ []) (3 ∷ 2 ∷ []) (97 ∷ []) (47 ∷ [])
one_free-CanFork = record {
  current = refl;
  running = worker 1 (omega arith) (omega arith);
  sched = record {
    queue = record {
      chain = (refl, refl);
      last = refl;
      len = refl;
      distinct = (tt, tt);
      small = omega arith;
    };
    swapper = refl;
    swapper_out = (omega arith, tt);
    current_out = λ c e. let same : c ≡ 1 = cc in rw same (omega arith, tt);
    room = omega arith;
  };
  room = omega arith;
  swapper = worker 0 (omega arith) (omega arith);
  queued = ((omega arith, worker 4 (omega arith) (omega arith)), tt);
  family = record {
    table = one_free-IsTable;
    siblings = (refl, (refl, refl));
    distinct = ((omega arith, tt), (tt, tt));
    parent_out = (omega arith, (omega arith, tt));
    in_use = (
      (omega arith, worker 3 (omega arith) (omega arith)),
      ((omega arith, worker 2 (omega arith) (omega arith)), tt),
    );
  };
  name_text = (omega arith, tt);
  cwd_text = (omega arith, tt);
  name_here = (replicate 62 0, refl);
  cwd_here = (replicate 62 0, refl);
  fits = λ c e. (omega arith, omega arith);
}

fork_lem_example :
    ForksTo
      (λ t. 2 * t)
      (λ t. 2 * t + 1)
      no_waits
      one_free
      0
      1
      (4 ∷ [])
      (3 ∷ 2 ∷ [])
      (97 ∷ [])
      (47 ∷ [])
      (fork (λ t. 2 * t) (λ t. 2 * t + 1) no_waits one_free)
fork_lem_example =
    fork_lem (λ t. 2 * t) (λ t. 2 * t + 1) no_waits one_free 0 1 (4 ∷ []) (3 ∷ 2 ∷ []) (97 ∷ [])
      (47 ∷ []) one_free-CanFork
