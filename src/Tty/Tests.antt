-- ===== src/Tty/Tests.antt =====
-- The theorems on terminals, at a terminal with the indices about to wrap.
use punix.Base.{
  ℕ, ◌≡◌, ◌<◌, ◌⊎◌, refl, ◌-◌, ◌++◌, [], ◌∷◌, none, some, length, arith, Bool, min, ◌==◌,
  if◌then◌else◌,
}
use punix.Base.Int.{negsuc}
use punix.Buffer.{Buf, store}
use punix.Drivers.{OpenFile, zero_file}
use punix.FreeRing.{w32}
use punix.Sched.{Sched}
use punix.Sched.Inv.{IsSched}
use punix.Sched.Samples.{busy, busy-IsSched}
use punix.Wait.{Waits, empty}
use punix.Wait.Linked.{IsWait}
use punix.Wait.Wakeup.{AllDetached}
use punix.Tty.{Tty, input_size, input_put, read_input, tty_write}
use punix.Tty.Input.{IsTty, input, input_put_lem, read_input_lem}
use punix.Tty.Output.{IsOut}
use punix.Tty.Write.{Idle, WroteFile, tty_write_lem}

-- One character is typed, and two are written.
abbrev wrapping : Tty
wrapping = record {
  idx = 0;
  in_buf = λ i. 97;
  in_head = 0;
  in_tail = w32 - 1;
  out_buf = λ i. 98;
  out_head = 1;
  out_tail = w32 - 1;
  cursor_pos = 1;
  in_wait_queue = 7;
}

wrapping-IsTty : IsTty wrapping
wrapping-IsTty = record { head_word = omega arith; tail_word = omega arith; fits = omega arith }

wrapping-IsOut : IsOut wrapping
wrapping-IsOut = record { head_word = omega arith; tail_word = omega arith; fits = omega arith }

-- Entry 10 has the task that is queued, entry 11 the one that sleeps, entry 12 none.
abbrev three_readers : Waits
three_readers = record {
  queues = λ q. if q == 7 then record { head = some 10; tail = some 12 } else empty;
  entries = λ e.
      if e == 10
      then record { task = some 3; prev = none; next = some 11; queue = some 7 }
      else if e == 11
      then record { task = some 4; prev = some 10; next = some 12; queue = some 7 }
      else if e == 12
      then record { task = none; prev = some 11; next = none; queue = some 7 }
      else record { task = none; prev = none; next = none; queue = none };
}

three-IsWait : IsWait three_readers 7 (10 ∷ 11 ∷ 12 ∷ [])
three-IsWait = record {
  links = (refl, refl, refl, (refl, refl, refl, (refl, refl, refl, refl)));
  tail = refl;
  distinct = ((omega arith, (omega arith, tt)), ((omega arith, tt), (tt, tt)));
}

input_put_lem_example :
    (length (input wrapping) < input_size
      → (tty' : Tty) × (w' : Waits) × (s' : Sched) × (input_put 4 wrapping three_readers busy 99
          ≡ some (tty', w', s'))
        × IsTty tty'
        × (input tty' ≡ input wrapping ++ (99 ∷ []))
        × IsWait w' 7 []
        × AllDetached w'.entries (10 ∷ 11 ∷ 12 ∷ [])
        × IsSched s' 0 (2 ∷ 3 ∷ 4 ∷ []))
    × (length (input wrapping) ≡ input_size
        → input_put 4 wrapping three_readers busy 99 ≡ some (wrapping, three_readers, busy))
input_put_lem_example =
    input_put_lem 4 wrapping three_readers busy 99 0 (10 ∷ 11 ∷ 12 ∷ []) (2 ∷ 3 ∷ []) wrapping-IsTty
      (omega arith) three-IsWait busy-IsSched
      (record {
        distinct = ((omega arith, (omega arith, tt)), ((omega arith, tt), (tt, tt)));
        swapper_out = (omega arith, tt);
        current_out = λ c e. let same : c ≡ 1 = cc in rw same (omega arith, tt);
        room = omega arith;
      })

read_input_lem_example :
    let r = read_input wrapping 5 in
    (input wrapping ≡ r.0 ++ input r.1) × (length r.0 ≡ min 5 (length (input wrapping))) × IsTty r.1
read_input_lem_example = read_input_lem wrapping 5 wrapping-IsTty

-- All terminals are alike, and terminal 2 is shown.
abbrev shows_2 : ℕ → Bool
shows_2 t = t == 2

abbrev on_2 : OpenFile
on_2 = record zero_file { driver_data = some 2 }

-- `xy`, a NUL and `z`
abbrev xy : Buf
xy = store (λ i. 0) 0 (120 ∷ 121 ∷ 0 ∷ 122 ∷ [])

tty_write_lem_example :
    let r = tty_write shows_2 (λ t. wrapping) (some on_2) (some xy) 4 in
    (Idle (some on_2) (some xy) 4 × (r ≡ (negsuc 0, ((λ t. wrapping), []))))
    ⊎ WroteFile shows_2 (λ t. wrapping) (some on_2) (some xy) 4 r
tty_write_lem_example =
    tty_write_lem shows_2 (λ t. wrapping) (some on_2) (some xy) 4 (λ t. wrapping-IsOut)
