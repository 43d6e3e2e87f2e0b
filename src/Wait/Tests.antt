-- ===== src/Wait/Tests.antt =====
-- The theorems on wait queues, at a queue of three entries at address 7.
use punix.Base.{ℕ, ◌≡◌, refl, none, some, [], ◌∷◌, arith, ◌==◌, if◌then◌else◌}
use punix.Sched.{Sched}
use punix.Sched.Inv.{IsSched}
use punix.Sched.Samples.{busy, busy-IsSched}
use punix.Wait.{Entry, Waits, empty, remove, wakeup}
use punix.Wait.Linked.{IsWait, IsDetached}
use punix.Wait.Remove.{remove_lem}
use punix.Wait.Wakeup.{AllDetached, wakeup_lem}

-- Entry 11 has the task that sleeps, entry 12 has none, entry 13 is in no queue.
abbrev three_entries : ℕ → Entry
three_entries e =
    if e == 10
    then record { task = some 3; prev = none; next = some 11; queue = some 7 }
    else if e == 11
    then record { task = some 4; prev = some 10; next = some 12; queue = some 7 }
    else if e == 12
    then record { task = none; prev = some 11; next = none; queue = some 7 }
    else record { task = none; prev = none; next = none; queue = none }

abbrev three_waiting : Waits
three_waiting = record {
  queues = λ q. if q == 7 then record { head = some 10; tail = some 12 } else empty;
  entries = three_entries;
}

three-IsWait : IsWait three_waiting 7 (10 ∷ 11 ∷ 12 ∷ [])
three-IsWait = record {
  links = (refl, refl, refl, (refl, refl, refl, (refl, refl, refl, refl)));
  tail = refl;
  distinct = ((omega arith, (omega arith, tt)), ((omega arith, tt), (tt, tt)));
}

remove_lem_example :
    IsWait (remove three_waiting (some 11)) 7 (10 ∷ 12 ∷ [])
    × IsDetached ((remove three_waiting (some 11)).entries 11)
    × ((x : ℕ)
        → (three_waiting.entries x).queue ≡ none
        → remove three_waiting (some x) ≡ three_waiting)
remove_lem_example = remove_lem three_waiting 7 11 (10 ∷ []) (12 ∷ []) three-IsWait

wakeup_lem_example :
    (w' : Waits) × (s' : Sched) × (wakeup 4 three_waiting busy (some 7) ≡ some (w', s'))
    × IsWait w' 7 []
    × AllDetached w'.entries (10 ∷ 11 ∷ 12 ∷ [])
    × IsSched s' 0 (2 ∷ 3 ∷ 4 ∷ [])
wakeup_lem_example =
    wakeup_lem 4 three_waiting busy 7 0 (10 ∷ 11 ∷ 12 ∷ []) (2 ∷ 3 ∷ []) (omega arith) three-IsWait
      busy-IsSched
      (record {
        distinct = ((omega arith, (omega arith, tt)), ((omega arith, tt), (tt, tt)));
        swapper_out = (omega arith, tt);
        current_out = λ c e. let same : c ≡ 1 = cc in rw same (omega arith, tt);
        room = omega arith;
      })
