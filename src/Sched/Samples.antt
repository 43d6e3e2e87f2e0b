-- ===== src/Sched/Samples.antt =====
-- A state of the scheduler: task 1 runs, tasks 2 and 3 wait, task 4 sleeps, 0 is the swapper.
use punix.Base.{◌≡◌, refl, some, ◌==◌, if◌then◌else◌, [], ◌∷◌, arith}
use punix.Base.Int.{pos}
use punix.Task.{State, blank}
use punix.RunQueue.{Tasks}
use punix.Sched.{Sched}
use punix.Sched.Inv.{IsSched}

abbrev pub five_tasks : Tasks
five_tasks i =
    let task = record blank { pid = pos i } in
    if i == 1
    then record task { state = State.running }
    else if i == 2
    then record task { state = State.queued; next = some 3 }
    else if i == 3
    then record task { state = State.queued }
    else if i == 4
    then record task { state = State.interruptible }
    else record task { state = State.queued }

abbrev pub busy : Sched
busy = record {
  current = some 1;
  ctxt = 7;
  table = record {
    ring = record { slots = λ i. i; head = 5; tail = 64 };
    tasks = five_tasks;
    generation = λ i. 1;
  };
  run_queue = record { first = some 2; last = some 3; len = 2 };
  swapper = some 0;
}

pub busy-IsSched : IsSched busy 0 (2 ∷ 3 ∷ [])
busy-IsSched = record {
  queue = record {
    chain = (refl, (refl, refl));
    last = refl;
    len = refl;
    distinct = ((omega arith, tt), (tt, tt));
    small = omega arith;
  };
  swapper = refl;
  swapper_out = (omega arith, (omega arith, tt));
  current_out = λ c e. let same : c ≡ 1 = cc in rw same (omega arith, (omega arith, tt));
  room = omega arith;
}
