-- ===== src/Clock/Tests.antt =====
-- The clock of arch/x86/clock.c on a day of 2024, shown in decimal digits, and at 3 GHz.
use punix.Base.{ℕ, ◌*◌, ◌+◌, ◌<◌, ◌≡◌, refl, arith, ◌==◌, if◌then◌else◌, some, false}
use punix.Base.Int.{pos}
use punix.Clock.{Clock, rtc_seconds_since_epoch, kclock_gettime}
use punix.Clock.Calendar.{days_since}
use punix.Clock.Epoch.{ShowsTime, epoch_lem}
use punix.Clock.Monotonic.{NotAfter, monotonic_lem}

-- The 29th of December 2024, 23:59:58.
abbrev cmos : ℕ → ℕ
cmos reg =
    if reg == 9
    then 36
    else if reg == 8
    then 18
    else if reg == 7
    then 41
    else if reg == 4
    then 35
    else if reg == 2
    then 89
    else if reg == 0
    then 88
    else 2

cmos-ShowsTime : ShowsTime cmos 24 12 29 23 59 58
cmos-ShowsTime = record {
  year_reg = (omega arith, refl);
  mon_reg = (omega arith, refl);
  day_reg = (omega arith, refl);
  hour_reg = (omega arith, refl);
  min_reg = (omega arith, refl);
  sec_reg = (omega arith, refl);
  mon_from = omega arith;
  mon_to = omega arith;
  day_from = omega arith;
  day_to = omega arith;
  hour_to = omega arith;
  min_to = omega arith;
  sec_to = omega arith;
}

epoch_lem_example :
    rtc_seconds_since_epoch cmos ≡ some (((days_since 2024 12 29 * 24 + 23) * 60 + 59) * 60 + 58)
epoch_lem_example = epoch_lem cmos 24 12 29 23 59 58 cmos-ShowsTime

epoch_value : rtc_seconds_since_epoch cmos ≡ some 1735516798
unfolding rtc_seconds_since_epoch punix.Clock.bcd punix.Clock.days_of
epoch_value = refl

abbrev clock : Clock
clock = record { boot_epoch_sec = 1735516798; boot_tsc = 1000; tsc_hz = 3000000000 }

monotonic_lem_example :
    (time time' : ℕ × ℕ) × (kclock_gettime clock 4500000000 (pos 1) false ≡ (pos 0, some time))
    × (kclock_gettime clock 4500000003 (pos 1) false ≡ (pos 0, some time'))
    × NotAfter time time'
    × (time.1 < 1000000000)
    × (time'.1 < 1000000000)
monotonic_lem_example =
    monotonic_lem clock 4500000000 4500000003 (omega arith) (omega arith) (omega arith)
      (omega arith)
