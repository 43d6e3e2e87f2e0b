-- ===== src/Kutils/Div64.antt =====
-- The 64-bit division helpers of kernel/core/kutils.c, over words below 2 ^ 64.
pub mod Unsigned
pub mod Signed
use punix.Base.{
  ℕ, zero, suc, ◌+◌, ◌-◌, ◌*◌, ◌/◌, ◌%◌, ◌^◌, bit_and, bit_or, Bool, true, false, not, Option, leb,
  ◌==◌, if◌then◌else◌, map?,
}

abbrev pub w64 : ℕ
w64 = 2 ^ 64

-- `r <<= 1; r |= (n >> i) & 1;`
pub shift_in : ℕ → ℕ → ℕ → ℕ
shift_in n i r = bit_or (r * 2 % w64) (bit_and (n / 2 ^ i) 1)

-- The loop of `__udivdi3` and `__udivmoddi4`, with `i` counting down to 0: quotient, remainder.
pub div_loop : ℕ → ℕ → ℕ → ℕ → ℕ → ℕ × ℕ
div_loop n d zero q r = (q, r)
div_loop n d (suc i) q r =
    let r' = shift_in n i r in
    let take = leb d r' in
    div_loop n d i (if take then bit_or q (2 ^ i) else q) (if take then r' - d else r')

pub udivdi3 : ℕ → ℕ → ℕ
udivdi3 n d = if d == 0 then 0 else (div_loop n d 64 0 0).0

-- The loop of `__umoddi3`.
pub mod_loop : ℕ → ℕ → ℕ → ℕ → ℕ
mod_loop n d zero r = r
mod_loop n d (suc i) r = let r' = shift_in n i r in mod_loop n d i (if leb d r' then r' - d else r')

pub umoddi3 : ℕ → ℕ → ℕ
umoddi3 n d = if d == 0 then 0 else mod_loop n d 64 0

-- `q = (n >> 1) + (n >> 2); q += q >> 4; ... q >>= 3`, and one correction by the remainder.
pub udiv64_10 : ℕ → ℕ × ℕ
udiv64_10 n =
    let q0 = (n / 2 + n / 2 ^ 2) % w64 in
    let q1 = (q0 + q0 / 2 ^ 4) % w64 in
    let q2 = (q1 + q1 / 2 ^ 8) % w64 in
    let q3 = (q2 + q2 / 2 ^ 16) % w64 in
    let q4 = (q3 + q3 / 2 ^ 32) % w64 in
    let q = q4 / 2 ^ 3 in
    let r = (n + w64 - q * 10 % w64) % w64 % 2 ^ 32 in
    if leb 10 r then ((q + 1) % w64, r - 10) else (q, r)

-- `__udivmoddi4`: `rem` is the object that the pointer leads to, `none` a null pointer.
pub udivmoddi4 : ℕ → ℕ → Option ℕ → ℕ × Option ℕ
udivmoddi4 n d rem =
    if d == 0
    then (0, map? (λ _. 0) rem)
    else (let (q, r) = div_loop n d 64 0 0 in (q, map? (λ _. r) rem))

-- An int64_t is its bit pattern. `-x` of the least value is undefined in C; here it wraps.
abbrev pub is_neg : ℕ → Bool
is_neg x = leb (2 ^ 63) x

abbrev pub negate : ℕ → ℕ
negate x = (w64 - x) % w64

abbrev pub flip_if : Bool → Bool → Bool
flip_if true b = not b
flip_if false b = b

pub divdi3 : ℕ → ℕ → ℕ
divdi3 a b =
    let neg = flip_if (is_neg b) (flip_if (is_neg a) false) in
    let q = udivdi3 (if is_neg a then negate a else a) (if is_neg b then negate b else b) in
    if neg then negate q else q

pub moddi3 : ℕ → ℕ → ℕ
moddi3 a b =
    let neg = is_neg a in
    let r = umoddi3 (if is_neg a then negate a else a) (if is_neg b then negate b else b) in
    if neg then negate r else r

-- `*rem = a - q * b` in wrapping 64-bit arithmetic.
pub divmoddi4 : ℕ → ℕ → Option ℕ → ℕ × Option ℕ
divmoddi4 a b rem = let q = divdi3 a b in (q, map? (λ _. (a + w64 - q * b % w64) % w64) rem)
