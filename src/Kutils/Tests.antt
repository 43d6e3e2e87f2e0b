-- ===== src/Kutils/Tests.antt =====
-- Runs of the library's functions, and its theorems at concrete inputs.
use punix.Base.{ℕ, ◌-◌, ◌^◌, ◌≡◌, true, false, none, some, List, [], ◌∷◌, arith, replicate}
use punix.Base.Int.{negsuc}
use punix.Kutils.Div64.{w64, udivdi3, umoddi3, udiv64_10, udivmoddi4, divdi3, moddi3, divmoddi4}
use punix.Kutils.Div64.Unsigned.{udivdi3-umoddi3-udivmoddi4, udiv64_10_lem}
use punix.Kutils.Div64.Signed.{divdi3-moddi3-divmoddi4}
use punix.Kutils.Decimal.{itoa}
use punix.Kutils.Decimal.RoundTrip.{itoa_lem, Printed}

udivdi3-umoddi3-udivmoddi4_example :
    (udivdi3 1000 7 ≡ 142) × (umoddi3 1000 7 ≡ 6) × (udivmoddi4 1000 7 (some 0) ≡ (142, some 6))
udivdi3-umoddi3-udivmoddi4_example =
    udivdi3-umoddi3-udivmoddi4 1000 7 (some 0) (omega arith) (omega arith)

udiv64_10_lem_example : udiv64_10 (2 ^ 64 - 1) ≡ (1844674407370955161, 5)
udiv64_10_lem_example = udiv64_10_lem (2 ^ 64 - 1) (omega arith)

-- -7 / 2 is -3 with remainder -1.
divdi3-moddi3-divmoddi4_example :
    (divdi3 (w64 - 7) 2 ≡ w64 - 3)
    × (moddi3 (w64 - 7) 2 ≡ w64 - 1)
    × (divmoddi4 (w64 - 7) 2 none ≡ (w64 - 3, none))
divdi3-moddi3-divmoddi4_example =
    divdi3-moddi3-divmoddi4 true false 7 2 (omega arith) (omega arith) (omega arith) none

abbrev ab : List ℕ
ab = b'a' ∷ b'b' ∷ []

abbrev ad : List ℕ
ad = b'a' ∷ b'd' ∷ []

abbrev aba : List ℕ
aba = b'a' ∷ b'b' ∷ b'a' ∷ []

abbrev zeros : List ℕ
zeros = 1 ∷ 1 ∷ 1 ∷ 1 ∷ []

itoa_lem_example :
    (out : List ℕ) × (itoa (negsuc 41) (replicate 12 1) ≡ some out)
    × Printed (b'-' ∷ []) 42 (replicate 12 1) out
itoa_lem_example = itoa_lem (negsuc 41) (replicate 12 1) (omega arith) (omega arith)
