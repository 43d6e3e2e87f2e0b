-- ===== src/Clock.antt =====
-- The real-time clock of arch/x86/clock.c. The registers of the chip are a function, as they stand
-- once the wait for the end of an update is over. `none` is an access outside the table of months.
pub mod Calendar
pub mod Epoch
pub mod Monotonic
mod Tests
use punix.Base.Int.{ℤ, pos, negsuc}
use punix.Base.{
  ℕ, ◌+◌, ◌-◌, ◌*◌, ◌/◌, ◌%◌, bit_and, Option, none, some, List, [], ◌∷◌, get_elem?, Bool, true,
  false, not, ◌&&◌, ◌||◌, ltb, ◌==◌, if◌then◌else◌, ◌>>=◌,
}

abbrev pub word : ℕ
word = 4294967296

pub bcd : ℕ → ℕ
bcd v = (bit_and v 15 + v / 16 * 10) % 256

abbrev pub rtc_is_bcd : (ℕ → ℕ) → Bool
rtc_is_bcd cmos = bit_and (cmos 11) 4 == 0

abbrev pub rtc_value : (ℕ → ℕ) → ℕ → ℕ
rtc_value cmos reg = if rtc_is_bcd cmos then bcd (cmos reg) else cmos reg

abbrev pub days_before : List ℕ
days_before = 0 ∷ 31 ∷ 59 ∷ 90 ∷ 120 ∷ 151 ∷ 181 ∷ 212 ∷ 243 ∷ 273 ∷ 304 ∷ 334 ∷ []

abbrev pub is_leap : ℕ → Bool
is_leap y = y % 4 == 0 && (not (y % 100 == 0) || y % 400 == 0)

-- The arithmetic on the values read, with `before` from the table of months.
unfoldable pub days_of : ℕ → ℕ → ℕ → ℕ → ℕ
days_of y mon day before =
    let days = ((y - 1970) * 365 + (y - 1969) / 4 + before + (day + (word - 1))) % word in
    if ltb 2 mon && is_leap y then (days + 1) % word else days

unfoldable pub rtc_seconds_since_epoch : (ℕ → ℕ) → Option ℕ
rtc_seconds_since_epoch cmos =
    let y = 2000 + rtc_value cmos 9 in
    let mon = rtc_value cmos 8 in
    get_elem? days_before ((mon + (word - 1)) % word) >>= λ before. some (
      (days_of y mon (rtc_value cmos 7) before * 86400
        + rtc_value cmos 4 * 3600
        + rtc_value cmos 2 * 60
        + rtc_value cmos 0)
      % word)

-- The static variables of the file; `last_ns` is never read.
pub record Clock : Type 0 where
  pub boot_epoch_sec : ℕ
  pub boot_tsc : ℕ
  pub tsc_hz : ℕ

abbrev pub long_word : ℕ
long_word = 18446744073709551616

-- Seconds and nanoseconds of a number of ticks.
abbrev pub whole_seconds : ℕ → ℕ → ℕ
whole_seconds hz ticks = ticks / hz % word

abbrev pub nanoseconds : ℕ → ℕ → ℕ
nanoseconds hz ticks = ticks % hz * 1000000000 % long_word / hz % word

-- `tsc` is what `rdtsc` gives; `none` as the time is a structure that is left alone.
pub kclock_gettime : Clock → ℕ → ℤ → Bool → ℤ × Option (ℕ × ℕ)
kclock_gettime c tsc id true = (negsuc 13, none)
kclock_gettime c tsc (negsuc n) false = (negsuc 21, none)
kclock_gettime c tsc (pos n) false =
    let delta = (tsc + (long_word - c.boot_tsc)) % long_word in
    if n == 1
    then (pos 0, some (whole_seconds c.tsc_hz tsc, nanoseconds c.tsc_hz tsc))
    else if n == 2
    then (pos 0, some (whole_seconds c.tsc_hz delta, nanoseconds c.tsc_hz delta))
    else if n == 0
    then (
      pos 0,
      some ((c.boot_epoch_sec + whole_seconds c.tsc_hz delta) % word, nanoseconds c.tsc_hz delta),
    )
    else (negsuc 21, none)
