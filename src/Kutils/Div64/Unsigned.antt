-- ===== src/Kutils/Div64/Unsigned.antt =====
-- The unsigned helpers compute the quotient and the remainder.
use native.Mathlib.Nat.{
  pow-suc, div-div-eq-div-mul, div-one, div-eq_of_lt-le, mul-add-mod_self_right,
}
use native.Mathlib.Nat.{mod-eq_of_lt, one-le-pow, div-le_self, le-add_left}
use punix.Base.{
  ℕ, zero, suc, ◌+◌, ◌-◌, ◌*◌, ◌/◌, ◌%◌, ◌^◌, ◌≤◌, ◌<◌, bit_or, ◌≡◌, refl, false, Option, arith,
  leb, ◌==◌, map?, or_disjoint, and_mask, ◌∙◌, inl, inr, Bool-cases, times_pow_suc, sym, leb→le,
  leb→lt,
}
use punix.Kutils.Div64.{w64, shift_in, div_loop, udivdi3, mod_loop, umoddi3, udiv64_10, udivmoddi4}

div_unique : (n d q r : ℕ) → n ≡ q * d + r → r < d → (q ≡ n / d) × (r ≡ n % d)
div_unique n d q r e h = (
  omega (arith, div-eq_of_lt-le {k = q} d {m = n} (omega arith) (grind arith)),
  rw (e, mul-add-mod_self_right, mod-eq_of_lt h),
)

half_prefix : (n i : ℕ) → n / 2 ^ suc i ≡ n / 2 ^ i / 2
half_prefix n i = rw (div-div-eq-div-mul, pow-suc) refl

-- Below half the range the shift loses nothing.
shift_in_lem : (n i r : ℕ) → r < 2 ^ 63 → shift_in n i r ≡ 2 * r + n / 2 ^ i % 2
unfolding shift_in
shift_in_lem n i r h = ground (arith, and_mask 1 (n / 2 ^ i), or_disjoint 1 r (n / 2 ^ i % 2))

prefix_small : (n i : ℕ) → n < w64 → n / 2 ^ suc i < 2 ^ 63
prefix_small n i h = omega (arith, half_prefix n i, div-le_self n (2 ^ i))

-- One round of the restoring division, on the prefix of `n` read so far.
module _ (n d Q r i : ℕ) (small : n < w64) (rest : r < d) (sum : n / 2 ^ suc i ≡ Q * d + r) where
  round_shift : shift_in n i r ≡ 2 * r + n / 2 ^ i % 2
  round_shift = shift_in_lem n i r (omega (arith, prefix_small n i small, le-add_left r (Q * d)))

  round_take :
      d ≤ shift_in n i r
      → (n / 2 ^ i ≡ suc (2 * Q) * d + (shift_in n i r - d)) × (shift_in n i r - d < d)
  round_take h = (grind (arith, round_shift, half_prefix n i), omega (arith, round_shift))

  round_skip : shift_in n i r < d → n / 2 ^ i ≡ 2 * Q * d + shift_in n i r
  round_skip h = grind (arith, round_shift, half_prefix n i)

quotient_bit : (Q i : ℕ) → bit_or (Q * 2 ^ suc i) (2 ^ i) ≡ suc (2 * Q) * 2 ^ i
quotient_bit Q i = omega (
  arith,
  or_disjoint (suc i) Q (2 ^ i) (omega (arith, pow-suc 2 i, one-le-pow i 2)),
  times_pow_suc Q i,
)

quotient_skip : (Q i : ℕ) → Q * 2 ^ suc i ≡ 2 * Q * 2 ^ i
quotient_skip Q i = omega (arith, times_pow_suc Q i)

-- From the quotient and remainder of a prefix, the loop reaches those of the whole.
module _ (n d : ℕ) (small : n < w64) where
  div_loop_lem :
      (i Q r : ℕ) → r < d → n / 2 ^ i ≡ Q * d + r → div_loop n d i (Q * 2 ^ i) r ≡ (n / d, n % d)
  unfolding div_loop
  div_loop_lem zero Q r h e =
      let (q, s) = div_unique n d Q r (sym (div-one n) ∙ e) h in
      let q' : Q * 2 ^ 0 ≡ n / d = omega (arith, q) in λ j. (q' j, s j)
  div_loop_lem (suc i) Q r h e = elim (Bool-cases (leb d (shift_in n i r))) [
    | inl fits ↦
        let (sum, rest) = round_take n d Q r i small h e (leb→le _ _ fits) in
        rw (fits, quotient_bit Q i) (div_loop_lem i (suc (2 * Q)) (shift_in n i r - d) rest sum)
    | inr less ↦
        let rest : shift_in n i r < d = leb→lt _ _ less in
        rw (less, quotient_skip Q i)
          (div_loop_lem i (2 * Q) (shift_in n i r) rest (round_skip n d Q r i small h e rest))
  ]

  mod_loop_lem : (i Q r : ℕ) → r < d → n / 2 ^ i ≡ Q * d + r → mod_loop n d i r ≡ n % d
  unfolding mod_loop
  mod_loop_lem zero Q r h e = (div_unique n d Q r (sym (div-one n) ∙ e) h).1
  mod_loop_lem (suc i) Q r h e = elim (Bool-cases (leb d (shift_in n i r))) [
    | inl fits ↦
        let (sum, rest) = round_take n d Q r i small h e (leb→le _ _ fits) in
        rw fits (mod_loop_lem i (suc (2 * Q)) (shift_in n i r - d) rest sum)
    | inr less ↦
        let rest : shift_in n i r < d = leb→lt _ _ less in
        rw less (mod_loop_lem i (2 * Q) (shift_in n i r) rest (round_skip n d Q r i small h e rest))
  ]

  -- Both loops start with no bit of `n` read.
  start : n / 2 ^ 64 ≡ 0 * d + 0
  start = omega arith

  div_loop_start : 0 < d → div_loop n d 64 0 0 ≡ (n / d, n % d)
  div_loop_start h = div_loop_lem 64 0 0 h start

-- For 64-bit operands with a divisor other than 0, `__udivdi3` returns the quotient, `__umoddi3`
-- the remainder, and `__udivmoddi4` the quotient, storing the remainder where a pointer is given.
pub udivdi3-umoddi3-udivmoddi4 :
    (n d : ℕ) (rem : Option ℕ)
    → n < w64
    → 0 < d
    → (udivdi3 n d ≡ n / d)
      × (umoddi3 n d ≡ n % d)
      × (udivmoddi4 n d rem ≡ (n / d, map? (λ _. n % d) rem))
unfolding udivdi3 umoddi3 udivmoddi4
udivdi3-umoddi3-udivmoddi4 n d rem small h =
    let nonzero : (d == 0) ≡ false = ground arith in
    (
      rw (nonzero, div_loop_start n d small h),
      rw (nonzero, mod_loop_lem n d small 64 0 0 h (start n d small)),
      rw (nonzero, div_loop_start n d small h),
    )

-- Division by the constant 10 through shifts and adds, for every 64-bit value: no intermediate sum
-- wraps into a wrong result, and the pair is the quotient and the remainder by 10.
pub udiv64_10_lem : (n : ℕ) → n < w64 → udiv64_10 n ≡ (n / 10, n % 10)
unfolding udiv64_10
udiv64_10_lem n h = ground arith
