-- ===== src/Kutils/Div64/Signed.antt =====
-- The signed helpers divide towards zero, like `/` and `%` of C.
use native.Mathlib.Nat.{div-le_self, mod-le, div-add-mod', mul_comm, zero-mul}
use punix.Base.{
  ℕ, zero, suc, ap, ◌+◌, ◌-◌, ◌*◌, ◌/◌, ◌%◌, ◌^◌, ◌≤◌, ◌<◌, ◌≡◌, refl, Bool, true, false, Option,
  none, arith, map?, if◌then◌else◌,
}
use punix.Kutils.Div64.{w64, is_neg, negate, flip_if, divdi3, moddi3, divmoddi4}
use punix.Kutils.Div64.Unsigned.{udivdi3-umoddi3-udivmoddi4}

-- The pattern of the number with this sign and magnitude; a negative zero is zero.
abbrev pub signed : Bool → ℕ → ℕ
signed true m = negate m
signed false m = m

-- What both helpers hand to the unsigned ones.
magnitude :
    (s : Bool) (m : ℕ)
    → m < 2 ^ 63
    → (if is_neg (signed s m) then negate (signed s m) else signed s m) ≡ m
magnitude true m h = ground arith
magnitude false m h = ground arith

-- A result that is 0 when the dividend is gets the sign that it should have.
resign :
    (s t : Bool) (m r : ℕ)
    → m < 2 ^ 63
    → r ≤ m
    → (if flip_if t (flip_if (is_neg (signed s m)) false) then negate r else r)
      ≡ signed (flip_if t s) r
resign true true m r h le = ground arith
resign true false m r h le = ground arith
resign false true m r h le = ground arith
resign false false m r h le = ground arith

resign_self :
    (s : Bool) (m r : ℕ)
    → m < 2 ^ 63
    → r ≤ m
    → (if is_neg (signed s m) then negate r else r) ≡ signed s r
resign_self true m r h le = ground arith
resign_self false m r h le = ground arith

-- The wrapping product of two patterns is the pattern of the product.
negate_pos : (q : ℕ) → suc q < w64 → (negate (suc q) ≡ w64 - suc q) × (w64 - suc q + suc q ≡ w64)
negate_pos q h = omega arith

negate-mul : (q k : ℕ) → q < w64 → q * k < 2 ^ 63 → negate q * k % w64 ≡ negate (q * k)
negate-mul zero k hq hp = simp zero-mul refl
negate-mul (suc q) zero hq hp = omega arith
negate-mul (suc q) (suc k) hq hp =
    let (e, sum) = negate_pos q hq in rw e (omega (arith, ap (λ (x : ℕ). x * suc k) sum))

negate-mul-negate :
    (q k : ℕ) → q < w64 → k < w64 → q * k < 2 ^ 63 → negate q * negate k % w64 ≡ q * k
negate-mul-negate zero k hq hk hp = simp zero-mul refl
negate-mul-negate (suc q) zero hq hk hp = omega arith
negate-mul-negate (suc q) (suc k) hq hk hp =
    let (e, sum) = negate_pos q hq in
    let (e', sum') = negate_pos k hk in
    rw (e, e')
      (omega (arith, ap (λ (x : ℕ). (w64 - suc q) * x) sum', ap (λ (x : ℕ). x * suc k) sum))

signed-mul :
    (u t : Bool) (q k : ℕ)
    → q < w64
    → k < w64
    → q * k < 2 ^ 63
    → signed u q * signed t k % w64 ≡ signed (flip_if t u) (q * k)
signed-mul false false q k hq hk hp = omega arith
signed-mul true false q k hq hk hp = negate-mul q k hq hp
signed-mul false true q k hq hk hp =
    rw (mul_comm q (negate k), mul_comm q k) (negate-mul k q hk (omega (arith, mul_comm q k)))
signed-mul true true q k hq hk hp = negate-mul-negate q k hq hk hp

remainder_sign :
    (s t : Bool) (m p r : ℕ)
    → m < 2 ^ 63
    → p + r ≡ m
    → (signed s m + w64 - signed (flip_if t (flip_if t s)) p) % w64 ≡ signed s r
remainder_sign true true m p r h e = omega arith
remainder_sign true false m p r h e = omega arith
remainder_sign false true m p r h e = omega arith
remainder_sign false false m p r h e = omega arith

sign : (t : Bool) (k : ℕ) → k < 2 ^ 63 → 0 < k → is_neg (signed t k) ≡ t
sign true k h p = ground arith
sign false k h p = ground arith

module _ (s t : Bool) (m k : ℕ) (hm : m < 2 ^ 63) (hk : k < 2 ^ 63) (pos : 0 < k) where
  divdi3_lem : divdi3 (signed s m) (signed t k) ≡ signed (flip_if t s) (m / k)
  unfolding divdi3
  divdi3_lem =
      rw
        (
          magnitude s m hm,
          magnitude t k hk,
          (udivdi3-umoddi3-udivmoddi4 m k none (omega arith) pos).0,
          sign t k hk pos,
        )
        (resign s t m (m / k) hm (div-le_self m k))

  moddi3_lem : moddi3 (signed s m) (signed t k) ≡ signed s (m % k)
  unfolding moddi3
  moddi3_lem =
      rw
        (
          magnitude s m hm,
          magnitude t k hk,
          (udivdi3-umoddi3-udivmoddi4 m k none (omega arith) pos).1,
        )
        (resign_self s m (m % k) hm (mod-le m k))

  -- `a - q * b` is the remainder again.
  rest_product :
      (q r : ℕ)
      → q * k + r ≡ m
      → (signed s m + w64 - signed (flip_if t s) q * signed t k % w64) % w64 ≡ signed s r
  rest_product q r e =
      rw (signed-mul (flip_if t s) t q k (grind arith) (omega arith) (omega arith))
        (remainder_sign s t m (q * k) r hm e)

  -- Division of two int64_t values, neither the least one, with a divisor other than 0: the
  -- quotient is cut off towards zero and the remainder takes the sign of the dividend. The combined
  -- helper returns the same quotient and stores the same remainder, if it is given a pointer.
  pub divdi3-moddi3-divmoddi4 :
      (rem : Option ℕ)
      → (divdi3 (signed s m) (signed t k) ≡ signed (flip_if t s) (m / k))
        × (moddi3 (signed s m) (signed t k) ≡ signed s (m % k))
        × (divmoddi4 (signed s m) (signed t k) rem
            ≡ (signed (flip_if t s) (m / k), map? (λ _. signed s (m % k)) rem))
  unfolding divmoddi4
  divdi3-moddi3-divmoddi4 rem =
      (divdi3_lem, moddi3_lem, rw (divdi3_lem, rest_product (m / k) (m % k) (div-add-mod' m k)))
