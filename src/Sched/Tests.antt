-- ===== src/Sched/Tests.antt =====
-- The theorems on the scheduler, at a state in which task 4 sleeps.
use punix.Base.{ℕ, ◌≡◌, refl, some, List, [], ◌∷◌, arith, true}
use punix.Base.Int.{pos}
use punix.Task.{State}
use punix.TaskTable.{find_by_pid, check_slot}
use punix.RunQueue.Linked.{IsQueue}
use punix.Sched.{Sched, schedule, kill}
use punix.Sched.Inv.{IsSched}
use punix.Sched.Turn.{Turns}
use punix.Sched.Round.{schedule_lem, schedules, schedules-runs}
use punix.Sched.Signals.{kill_lem, Marked}
use punix.Sched.Twice.{kill-kill}
use punix.Sched.Samples.{busy, busy-IsSched}

schedule_lem_example : (s' : Sched) × (schedule busy ≡ some s') × Turns busy s' 0 2 (3 ∷ 1 ∷ [])
schedule_lem_example = schedule_lem busy 0 (2 ∷ 3 ∷ []) busy-IsSched

schedules-runs_example :
    (s' : Sched) × (schedules 2 busy ≡ some s')
    × (s'.current ≡ some 3)
    × ((s'.table.tasks 3).state ≡ State.running)
schedules-runs_example = schedules-runs busy 0 (2 ∷ []) 3 [] busy-IsSched

finds_4 : find_by_pid busy.table (pos 4) ≡ some 4
unfolding find_by_pid check_slot
finds_4 = refl

kill_lem_example :
    (s' : Sched) × (kill busy (pos 4) (pos 9) ≡ some (pos 0, s'))
    × IsSched s' 0 (2 ∷ 3 ∷ 4 ∷ [])
    × Marked (busy.table.tasks 4) (s'.table.tasks 4) 9
kill_lem_example =
    kill_lem busy 0 (2 ∷ 3 ∷ []) (pos 4) 9 4 true busy-IsSched (omega arith) (omega arith) finds_4
      refl (λ q. ((omega arith, (omega arith, tt)), omega arith, (λ e. (cc)), omega arith))

kill-kill_example :
    (s1 s2 : Sched) × (kill busy (pos 4) (pos 9) ≡ some (pos 0, s1))
    × (kill s1 (pos 4) (pos 15) ≡ some (pos 0, s2))
    × ((l' : List ℕ) → ¬ IsQueue s2.table.tasks s2.run_queue l')
kill-kill_example =
    kill-kill busy 0 (2 ∷ 3 ∷ []) (pos 4) 9 15 4 busy-IsSched (omega arith) (omega arith)
      (omega arith) (omega arith) finds_4 refl (omega arith, (omega arith, tt))
