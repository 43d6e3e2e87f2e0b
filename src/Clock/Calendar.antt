-- ===== src/Clock/Calendar.antt =====
-- The calendar, counted year by year and month by month, against which the clock is measured.
use punix.Base.{
  ℕ, zero, suc, ◌+◌, ◌-◌, ◌*◌, ◌/◌, ◌<◌, ◌≤◌, ◌≡◌, refl, arith, Bool, true, false, ◌&&◌, ◌||◌, ◌==◌,
  ltb, if◌then◌else◌, get_elem?, some, List, [], ◌∷◌, subst, sym, length, All,
}
use punix.Clock.{is_leap, days_before}

abbrev pub days_in_year : ℕ → ℕ
days_in_year y = if is_leap y then 366 else 365

-- The days of the first `n` years from 1970 on.
pub days_of_years : ℕ → ℕ
days_of_years zero = 0
days_of_years (suc n) = days_of_years n + days_in_year (1970 + n)

-- The length of a month, counted from 0, in a leap year or not.
abbrev pub days_in_month : Bool → ℕ → ℕ
days_in_month leap m =
    if m == 1
    then (if leap then 29 else 28)
    else if m == 3 || (m == 5 || (m == 8 || m == 10))
    then 30
    else 31

pub days_of_months : Bool → ℕ → ℕ
days_of_months leap zero = 0
days_of_months leap (suc n) = days_of_months leap n + days_in_month leap n

-- Midnight of the day, in days since the start of 1970.
abbrev pub days_since : ℕ → ℕ → ℕ → ℕ
days_since y mon day = days_of_years (y - 1970) + days_of_months (is_leap y) (mon - 1) + (day - 1)

leap_step :
    (n : ℕ)
    → n < 130
    → 365 * suc n + (suc n + 1) / 4 ≡ 365 * n + (n + 1) / 4 + days_in_year (1970 + n)
leap_step n h = ground arith

pub years_lem : (n : ℕ) → n ≤ 130 → days_of_years n ≡ 365 * n + (n + 1) / 4
unfolding days_of_years
years_lem zero h = refl
years_lem (suc n) h = omega (arith, years_lem n (omega arith), leap_step n (omega arith))

abbrev pub extra : Bool → ℕ → ℕ
extra leap mon = if ltb 2 mon && leap then 1 else 0

-- The part of a table from the month `k` on counts the months before each.
abbrev Agrees : Bool → ℕ → List ℕ → Type 0
Agrees leap k [] = Unit
Agrees leap k (b ∷ bs) = (b + extra leap (k + 1) ≡ days_of_months leap k) × Agrees leap (k + 1) bs

agree-at :
    (leap : Bool) (k m : ℕ) (bs : List ℕ) (before : ℕ)
    → Agrees leap k bs
    → get_elem? bs m ≡ some before
    → before + extra leap (k + m + 1) ≡ days_of_months leap (k + m)
agree-at leap k m [] before a e = absurd (cc)
agree-at leap k zero (b ∷ bs) before a e =
    let at : k + 0 ≡ k = omega arith in
    let same : b ≡ before = cc in
    subst (λ x. before + extra leap (x + 1) ≡ days_of_months leap x) (sym at)
      (subst (λ x. x + extra leap (k + 1) ≡ days_of_months leap k) same a.0)
agree-at leap k (suc m) (b ∷ bs) before a e =
    let at : k + 1 + m ≡ k + suc m = omega arith in
    subst (λ x. before + extra leap (x + 1) ≡ days_of_months leap x) at
      (agree-at leap (k + 1) m bs before a.1 e)

days_before-Agrees : (leap : Bool) → Agrees leap 0 days_before
unfolding days_of_months
days_before-Agrees true = (
  refl,
  (refl, (refl, (refl, (refl, (refl, (refl, (refl, (refl, (refl, (refl, (refl, tt))))))))))),
)
days_before-Agrees false = (
  refl,
  (refl, (refl, (refl, (refl, (refl, (refl, (refl, (refl, (refl, (refl, (refl, tt))))))))))),
)

-- The table of months, with a day more behind February in a leap year, counts the months before.
pub months_lem :
    (leap : Bool) (m before : ℕ)
    → get_elem? days_before m ≡ some before
    → before + extra leap (m + 1) ≡ days_of_months leap m
months_lem leap m before e =
    let at : 0 + m ≡ m = omega arith in
    subst (λ x. before + extra leap (x + 1) ≡ days_of_months leap x) at
      (agree-at leap 0 m days_before before (days_before-Agrees leap) e)

within :
    (m : ℕ) (bs : List ℕ) (bound : ℕ)
    → m < length bs
    → All (λ b. b < bound) bs
    → (before : ℕ) × (get_elem? bs m ≡ some before) × (before < bound)
within m [] bound h a = absurd (omega arith)
within zero (b ∷ bs) bound h a = (b, refl, a.0)
within (suc m) (b ∷ bs) bound h a = within m bs bound (omega arith) a.1

-- A month of the year has a place in the table, of less than a year.
pub table-some :
    (m : ℕ) → m < 12 → (before : ℕ) × (get_elem? days_before m ≡ some before) × (before < 335)
table-some m h = within m days_before 335 (omega arith) (
  omega arith,
  (
    omega arith,
    (
      omega arith,
      (
        omega arith,
        (
          omega arith,
          (
            omega arith,
            (
              omega arith,
              (omega arith, (omega arith, (omega arith, (omega arith, (omega arith, tt))))),
            ),
          ),
        ),
      ),
    ),
  ),
)
