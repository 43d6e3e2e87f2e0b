-- ===== src/Clock/Epoch.antt =====
-- `rtc_seconds_since_epoch` of arch/x86/clock.c against the calendar.
use punix.Base.{
  ℕ, ◌+◌, ◌-◌, ◌*◌, ◌/◌, ◌%◌, ◌<◌, ◌≤◌, ◌≡◌, ap, ap₂, ◌∙◌, arith, and_mask, ◌&&◌, Bool-cases, inl,
  inr, ltb, if◌then◌else◌, if-true, if-false, get_elem?, Option, some, ◌>>=◌,
}
use punix.Clock.{
  word, bcd, rtc_is_bcd, rtc_value, days_before, is_leap, days_of, rtc_seconds_since_epoch,
}
use punix.Clock.Calendar.{days_of_months, days_since, years_lem, months_lem, extra, table-some}

-- The digits of a number below 100 in the two halves of a byte.
abbrev pub to_bcd : ℕ → ℕ
to_bcd n = n / 10 * 16 + n % 10

-- `bcd` reads back the two digits of a number below 100.
pub bcd-to_bcd : (n : ℕ) → n < 100 → bcd (to_bcd n) ≡ n
unfolding bcd
bcd-to_bcd n h = omega (arith, and_mask 4 (to_bcd n))

-- The register holds the value, in the format that the chip is set to.
abbrev pub Shows : (ℕ → ℕ) → ℕ → ℕ → Type 0
Shows cmos reg n = (n < 100) × (cmos reg ≡ (if rtc_is_bcd cmos then to_bcd n else n))

rtc_value_lem : (cmos : ℕ → ℕ) (reg n : ℕ) → Shows cmos reg n → rtc_value cmos reg ≡ n
rtc_value_lem cmos reg n (h, e) = elim (Bool-cases (rtc_is_bcd cmos)) [
  | inl t ↦ if-true _ _ _ t ∙ ap bcd (e ∙ if-true _ _ _ t) ∙ bcd-to_bcd n h
  | inr f ↦ if-false _ _ _ f ∙ e ∙ if-false _ _ _ f
]

-- The chip shows a date and a time of day of the years 2000 to 2099.
pub record ShowsTime (cmos : ℕ → ℕ) (year mon day hour min sec : ℕ) : Type 0 where
  pub year_reg : Shows cmos 9 year
  pub mon_reg : Shows cmos 8 mon
  pub day_reg : Shows cmos 7 day
  pub hour_reg : Shows cmos 4 hour
  pub min_reg : Shows cmos 2 min
  pub sec_reg : Shows cmos 0 sec
  pub mon_from : 1 ≤ mon
  pub mon_to : mon ≤ 12
  pub day_from : 1 ≤ day
  pub day_to : day ≤ 31
  pub hour_to : hour < 24
  pub min_to : min < 60
  pub sec_to : sec < 60

days_lem :
    (year mon day before : ℕ)
    → year < 100
    → 1 ≤ mon
    → 1 ≤ day
    → day ≤ 31
    → before < 335
    → get_elem? days_before (mon - 1) ≡ some before
    → (days_of (2000 + year) mon day before ≡ days_since (2000 + year) mon day)
      × (days_since (2000 + year) mon day < 47850)
unfolding days_of
days_lem year mon day before hy hm hd hd' hb e =
    let y = 2000 + year in
    let leap = is_leap y in
    let years = years_lem (y - 1970) (omega arith) in
    let months : before + extra leap mon ≡ days_of_months leap (mon - 1) =
      ap (λ x. before + extra leap x) (omega arith) ∙ months_lem leap (mon - 1) before e in
    elim (Bool-cases (ltb 2 mon && leap)) [
      | inl t ↦
          (let one : extra leap mon ≡ 1 = if-true _ _ _ t in
            (
              if-true _ _ _ t ∙ omega (arith, years, months, one),
              omega (arith, years, months, one),
            ))
      | inr f ↦
          (let none_more : extra leap mon ≡ 0 = if-false _ _ _ f in
            (
              if-false _ _ _ f ∙ omega (arith, years, months, none_more),
              omega (arith, years, months, none_more),
            ))
    ]

go_on : ℕ → ℕ → ℕ → ℕ → ℕ → ℕ → Option ℕ → Option ℕ
go_on y mon day hour min sec o =
    o >>= λ before. some ((days_of y mon day before * 86400 + hour * 3600 + min * 60 + sec) % word)

-- The clock's seconds since 1970 are those that the calendar counts, for every time of the years 2000
-- to 2099 that the chip shows, in either of its formats.
pub epoch_lem :
    (cmos : ℕ → ℕ) (year mon day hour min sec : ℕ)
    → ShowsTime cmos year mon day hour min sec
    → rtc_seconds_since_epoch cmos
      ≡ some (((days_since (2000 + year) mon day * 24 + hour) * 60 + min) * 60 + sec)
unfolding rtc_seconds_since_epoch go_on
epoch_lem cmos year mon day hour min sec v =
    let (before, eb, hb) = table-some (mon - 1) (omega (arith, v.mon_to, v.mon_from)) in
    let (ed, small) =
      days_lem year mon day before v.year_reg.0 v.mon_from v.day_from v.day_to hb eb in
    let at : (mon + (word - 1)) % word ≡ mon - 1 = omega (arith, v.mon_from, v.mon_to) in
    let mon_read = rtc_value_lem cmos 8 mon v.mon_reg in
    ap
      (λ y.
        go_on (2000 + y) (rtc_value cmos 8) (rtc_value cmos 7) (rtc_value cmos 4) (rtc_value cmos 2)
          (rtc_value cmos 0) (get_elem? days_before ((rtc_value cmos 8 + (word - 1)) % word)))
      (rtc_value_lem cmos 9 year v.year_reg)
    ∙ ap
        (λ m.
          go_on (2000 + year) m (rtc_value cmos 7) (rtc_value cmos 4) (rtc_value cmos 2)
            (rtc_value cmos 0) (get_elem? days_before ((m + (word - 1)) % word)))
        mon_read
    ∙ ap
        (λ o.
          go_on (2000 + year) mon (rtc_value cmos 7) (rtc_value cmos 4) (rtc_value cmos 2)
            (rtc_value cmos 0) o)
        (ap (get_elem? days_before) at ∙ eb)
    ∙ ap
        (λ d.
          go_on (2000 + year) mon d (rtc_value cmos 4) (rtc_value cmos 2) (rtc_value cmos 0)
            (some before))
        (rtc_value_lem cmos 7 day v.day_reg)
    ∙ ap₂ (λ h m. go_on (2000 + year) mon day h m (rtc_value cmos 0) (some before))
        (rtc_value_lem cmos 4 hour v.hour_reg) (rtc_value_lem cmos 2 min v.min_reg)
    ∙ ap (λ s. go_on (2000 + year) mon day hour min s (some before))
        (rtc_value_lem cmos 0 sec v.sec_reg)
    ∙ ap some (omega (arith, ed, small, v.hour_to, v.min_to, v.sec_to))
