-- ===== src/Base/Pigeonhole.antt =====
-- No injection maps `n + 1` numbers below `n`.
use punix.Base.{
  ℕ, zero, suc, ◌<◌, ◌≡◌, ◌≢◌, refl, arith, ◌==◌, if◌then◌else◌, ne→==, eq→==, ℕ_discrete, sym, ◌∙◌,
}

-- The value `m` is given up for the value of the last argument.
swap_out : (ℕ → ℕ) → ℕ → ℕ → ℕ
swap_out f m k = if f k == m then f (suc m) else f k

swap_out-hit : (f : ℕ → ℕ) (m k : ℕ) → f k ≡ m → swap_out f m k ≡ f (suc m)
unfolding swap_out
swap_out-hit f m k e = rw (eq→== (f k) m e) refl

swap_out-miss : (f : ℕ → ℕ) (m k : ℕ) → f k ≢ m → swap_out f m k ≡ f k
unfolding swap_out
swap_out-miss f m k ne = rw (ne→== (f k) m ne) refl

abbrev pub InjectsBelow : ℕ → ℕ → (ℕ → ℕ) → Type 0
InjectsBelow n m f = ((k : ℕ) → k < n → f k < m) × ((j k : ℕ) → j < n → k < n → f j ≡ f k → j ≡ k)

module _ (f : ℕ → ℕ) (m : ℕ) (inj : InjectsBelow (suc (suc m)) (suc m) f) where
  last-ne : (k : ℕ) → k < suc m → f (suc m) ≢ f k
  last-ne k h e = omega (arith, inj.1 (suc m) k (omega arith) (omega arith) e)

  swap_out-lt : (k : ℕ) → k < suc m → swap_out f m k < m
  swap_out-lt k h = elim (ℕ_discrete (f k) m) [
    | yes e ↦
        rw (swap_out-hit f m k e) (
          omega
            (arith, inj.0 (suc m) (omega arith), λ (q : f (suc m) ≡ m). last-ne k h (q ∙ sym e)))
    | no ne ↦ rw (swap_out-miss f m k ne) (omega (arith, inj.0 k (omega arith)))
  ]

  swap_out_inj : (j k : ℕ) → j < suc m → k < suc m → swap_out f m j ≡ swap_out f m k → j ≡ k
  swap_out_inj j k hj hk e = elim (ℕ_discrete (f j) m) [
    | yes ej ↦ elim (ℕ_discrete (f k) m) [
      | yes ek ↦ inj.1 j k (omega arith) (omega arith) (ej ∙ sym ek)
      | no nk ↦ absurd (last-ne k hk (sym (swap_out-hit f m j ej) ∙ e ∙ swap_out-miss f m k nk))
    ]
    | no nj ↦ elim (ℕ_discrete (f k) m) [
      | yes ek ↦
          absurd (last-ne j hj (sym (swap_out-hit f m k ek) ∙ sym e ∙ swap_out-miss f m j nj))
      | no nk ↦
          inj.1 j k (omega arith) (omega arith)
            (sym (swap_out-miss f m j nj) ∙ e ∙ swap_out-miss f m k nk)
    ]
  ]

pub pigeonhole : (n : ℕ) (f : ℕ → ℕ) → ¬ InjectsBelow (suc n) n f
pigeonhole zero f inj = absurd (omega (arith, inj.0 0 (omega arith)))
pigeonhole (suc m) f inj = pigeonhole m (swap_out f m) (swap_out-lt f m inj, swap_out_inj f m inj)

-- `f` with one more value at `n`.
extend : (ℕ → ℕ) → ℕ → ℕ → ℕ → ℕ
extend f n s k = if k == n then s else f k

extend_last : (f : ℕ → ℕ) (n s : ℕ) → extend f n s n ≡ s
unfolding extend
extend_last f n s = rw (eq→== n n refl) refl

extend_below : (f : ℕ → ℕ) (n s k : ℕ) → k ≢ n → extend f n s k ≡ f k
unfolding extend
extend_below f n s k ne = rw (ne→== k n ne) refl

module _ (n : ℕ) (f : ℕ → ℕ) (inj : InjectsBelow n n f) (s : ℕ) (hs : s < n)
    (missed : (k : ℕ) → k < n → f k ≢ s) where
  extend-lt : (k : ℕ) → k < suc n → extend f n s k < n
  extend-lt k h = elim (ℕ_discrete k n) [
    | yes e ↦ rw (e, extend_last) hs
    | no ne ↦ rw (extend_below f n s k ne) (inj.0 k (omega arith))
  ]

  extend_inj : (j k : ℕ) → j < suc n → k < suc n → extend f n s j ≡ extend f n s k → j ≡ k
  extend_inj j k hj hk e = elim (ℕ_discrete j n) [
    | yes ej ↦ elim (ℕ_discrete k n) [
      | yes ek ↦ ej ∙ sym ek
      | no nk ↦
          let es : s ≡ extend f n s k = sym (extend_last f n s) ∙ (rw ej at e) in
          absurd (missed k (omega arith) (sym (es ∙ extend_below f n s k nk)))
    ]
    | no nj ↦ elim (ℕ_discrete k n) [
      | yes ek ↦
          let es : extend f n s j ≡ s = (rw ek at e) ∙ extend_last f n s in
          absurd (missed j (omega arith) (sym (extend_below f n s j nj) ∙ es))
      | no nk ↦
          inj.1 j k (omega arith) (omega arith)
            (sym (extend_below f n s j nj) ∙ e ∙ extend_below f n s k nk)
    ]
  ]

  -- An injection of the numbers below `n` among themselves misses none.
  pub misses_none : ⊥
  misses_none = pigeonhole n (extend f n s) (extend-lt, extend_inj)
