-- ===== src/Clock/Monotonic.antt =====
-- `kclock_gettime` of arch/x86/clock.c: the clocks do not run backwards.
use punix.Base.{
  ℕ, ◌*◌, ◌/◌, ◌%◌, ◌<◌, ◌≤◌, ◌≡◌, ◌⊎◌, inl, inr, refl, ap, ◌∙◌, arith, false, some, ℕ_discrete,
}
use punix.Base.Int.{pos}
use native.Mathlib.Nat.{
  le-div_iff_mul-le, div-lt_iff_lt-mul, mod-lt, div-mul-le_self, div-add-mod', mod-eq_of_lt,
}
use punix.Clock.{Clock, word, long_word, whole_seconds, nanoseconds, kclock_gettime}

-- A time is before another or the same.
abbrev pub NotAfter : ℕ × ℕ → ℕ × ℕ → Type 0
NotAfter (s, n) (s', n') = (s < s') ⊎ ((s ≡ s') × (n ≤ n'))

div_mono : (k a b : ℕ) → 0 < k → a ≤ b → a / k ≤ b / k
div_mono k a b h le = (le-div_iff_mul-le h).1 (omega (arith, div-mul-le_self a k, le))

-- The counter runs at less than 18.4 GHz, and has not run for 2 ^ 32 seconds.
module _ (hz : ℕ) (pos_hz : 0 < hz) (slow : hz ≤ 18446744073) where
  exact : (t : ℕ) → t % hz * 1000000000 % long_word ≡ t % hz * 1000000000
  exact t = mod-eq_of_lt (omega (arith, mod-lt t pos_hz, slow))

  below : (t : ℕ) → t % hz * 1000000000 / hz < 1000000000
  below t = (div-lt_iff_lt-mul pos_hz).1 (omega (arith, mod-lt t pos_hz))

  nanoseconds_lem : (t : ℕ) → nanoseconds hz t ≡ t % hz * 1000000000 / hz
  nanoseconds_lem t = ap (λ x. x / hz % word) (exact t) ∙ mod-eq_of_lt (omega (arith, below t))

  pub nanoseconds-lt : (t : ℕ) → nanoseconds hz t < 1000000000
  nanoseconds-lt t = omega (arith, nanoseconds_lem t, below t)

  pub stamp_mono :
      (t t' : ℕ)
      → t ≤ t'
      → t' / hz < word
      → NotAfter (whole_seconds hz t, nanoseconds hz t) (whole_seconds hz t', nanoseconds hz t')
  stamp_mono t t' le fits =
      let up = div_mono hz t t' pos_hz le in
      elim (ℕ_discrete (t / hz) (t' / hz)) [
        | yes e ↦
            (let same : t / hz * hz ≡ t' / hz * hz = ap (λ x. x * hz) e in
              let rests : t % hz ≤ t' % hz =
                omega (arith, div-add-mod' t hz, div-add-mod' t' hz, same, le) in
              inr (
                ap (λ x. x % word) e,
                omega (
                  arith,
                  nanoseconds_lem t,
                  nanoseconds_lem t',
                  div_mono hz (t % hz * 1000000000) (t' % hz * 1000000000) pos_hz
                      (omega (arith, rests)),
                ),
              ))
        | no ne ↦ inl (omega (arith, up, ne, fits))
      ]

-- Two calls of CLOCK_MONOTONIC, one after the other, succeed and give times in their order, each with
-- less than a second of nanoseconds, if the counter runs at 18.4 GHz at most and its seconds fit 32
-- bits.
pub monotonic_lem :
    (c : Clock) (tsc tsc' : ℕ)
    → 0 < c.tsc_hz
    → c.tsc_hz ≤ 18446744073
    → tsc ≤ tsc'
    → tsc' / c.tsc_hz < word
    → (time time' : ℕ × ℕ) × (kclock_gettime c tsc (pos 1) false ≡ (pos 0, some time))
      × (kclock_gettime c tsc' (pos 1) false ≡ (pos 0, some time'))
      × NotAfter time time'
      × (time.1 < 1000000000)
      × (time'.1 < 1000000000)
unfolding kclock_gettime
monotonic_lem c tsc tsc' h slow le fits = (
  (whole_seconds c.tsc_hz tsc, nanoseconds c.tsc_hz tsc),
  (whole_seconds c.tsc_hz tsc', nanoseconds c.tsc_hz tsc'),
  refl,
  refl,
  stamp_mono c.tsc_hz h slow tsc tsc' le fits,
  nanoseconds-lt c.tsc_hz h slow tsc,
  nanoseconds-lt c.tsc_hz h slow tsc',
)
