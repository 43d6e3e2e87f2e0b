-- ===== src/Kutils/Decimal/Digits.antt =====
-- The digits that the conversions push are the decimal numeral of the value.
use native.Mathlib.Nat.{pow-suc}
use punix.Base.{
  ℕ, zero, suc, ◌+◌, ◌-◌, ◌*◌, ◌/◌, ◌%◌, ◌^◌, ◌≤◌, ◌<◌, ◌≡◌, refl, ◌≢◌, List, [], ◌∷◌, ◌++◌, arith,
  length, length-append, All, append_assoc, dec_lt,
}
use punix.Kutils.Decimal.{push_digits}

abbrev pub IsDigit : ℕ → Type 0
IsDigit c = (b'0' ≤ c) × (c ≤ b'9')

-- The number that a text of digits stands for, read on from `acc`.
unfoldable pub number : ℕ → List ℕ → ℕ
number acc [] = acc
number acc (c ∷ cs) = number (acc * 10 + (c - b'0')) cs

-- No zero in front, but for the numeral of 0.
abbrev pub IsReduced : List ℕ → Type 0
IsReduced [] = ⊥
IsReduced (c ∷ []) = Unit
IsReduced (c ∷ d ∷ cs) = c ≢ b'0'

-- The decimal numeral of `n`.
pub record IsNumeral (n : ℕ) (cs : List ℕ) : Type 0 where
  pub digits : All IsDigit cs
  pub stands_for : number 0 cs ≡ n
  pub reduced : IsReduced cs

number-append : (acc : ℕ) (xs ys : List ℕ) → number acc (xs ++ ys) ≡ number (number acc xs) ys
unfolding number
number-append acc [] ys = refl
number-append acc (c ∷ xs) ys = number-append (acc * 10 + (c - b'0')) xs ys

pub push_digits-append :
    (room v : ℕ) (tmp : List ℕ) → push_digits room v tmp ≡ push_digits room v [] ++ tmp
unfolding push_digits
push_digits-append zero v tmp = refl
push_digits-append (suc room) v tmp = ground (
  arith,
  push_digits-append room (v / 10) ((b'0' + v % 10) ∷ tmp),
  push_digits-append room (v / 10) ((b'0' + v % 10) ∷ []),
  append_assoc (push_digits room (v / 10) []) ((b'0' + v % 10) ∷ []) tmp,
)

-- With room for another digit, a positive value leaves its last digit behind the others.
push_digits-suc :
    (room v : ℕ)
    → 0 < v
    → push_digits (suc room) v [] ≡ push_digits room (v / 10) [] ++ ((b'0' + v % 10) ∷ [])
unfolding push_digits
push_digits-suc room v h = ground (arith, push_digits-append room (v / 10) ((b'0' + v % 10) ∷ []))

push_digits-zero : (room : ℕ) (tmp : List ℕ) → push_digits room 0 tmp ≡ tmp
unfolding push_digits
push_digits-zero zero tmp = refl
push_digits-zero (suc room) tmp = refl

All-append {ℓ κ} :
    {A : Type ℓ} (P : A → Type κ) (xs ys : List A) → All P xs → All P ys → All P (xs ++ ys)
All-append P [] ys h k = k
All-append P (x ∷ xs) ys h k = (h.0, All-append P xs ys h.1 k)

push_digits-IsDigit : (room v : ℕ) → All IsDigit (push_digits room v [])
push_digits-IsDigit zero v = unfold push_digits in tt
push_digits-IsDigit (suc room) zero = rw push_digits-zero tt
push_digits-IsDigit (suc room) (suc v) =
    rw (push_digits-suc room (suc v) (omega arith))
      (All-append IsDigit _ _ (push_digits-IsDigit room (suc v / 10)) (omega arith))

number-push_digits : (room v : ℕ) → v < 10 ^ room → number 0 (push_digits room v []) ≡ v
number-push_digits zero v h = unfold push_digits number in omega arith
number-push_digits (suc room) zero h = rw push_digits-zero (unfold number in refl)
number-push_digits (suc room) (suc v) h =
    rw
      (
        push_digits-suc room (suc v) (omega arith),
        number-append,
        number-push_digits room (suc v / 10) (omega (arith, pow-suc 10 room)),
      )
      (unfold number in omega arith)

-- A value below `10 ^ k` has at most `k` digits, whatever the room.
pub length-push_digits : (room v k : ℕ) → v < 10 ^ k → length (push_digits room v []) ≤ k
length-push_digits zero v k h = unfold push_digits in omega arith
length-push_digits (suc room) zero k h = rw push_digits-zero (omega arith)
length-push_digits (suc room) (suc v) zero h = absurd (omega arith)
length-push_digits (suc room) (suc v) (suc k) h =
    rw (push_digits-suc room (suc v) (omega arith), length-append)
      (omega (arith, length-push_digits room (suc v / 10) k (omega (arith, pow-suc 10 k))))

-- The first digit of a positive value is not 0.
abbrev pub Leads : List ℕ → Type 0
Leads [] = ⊥
Leads (c ∷ cs) = c ≢ b'0'

Leads-append : (xs ys : List ℕ) → Leads xs → Leads (xs ++ ys)
Leads-append [] ys h = absurd h
Leads-append (x ∷ xs) ys h = h

push_digits-Leads : (room v : ℕ) → 0 < v → v < 10 ^ room → Leads (push_digits room v [])
push_digits-Leads zero v h k = absurd (omega arith)
push_digits-Leads (suc room) v h k = rw (push_digits-suc room v h) (elim (dec_lt 0 (v / 10)) [
  | yes p ↦ Leads-append _ _ (push_digits-Leads room (v / 10) p (omega (arith, pow-suc 10 room)))
  | no p ↦ let e : v / 10 ≡ 0 = omega arith in rw (e, push_digits-zero) (omega arith)
])

IsReduced-of_Leads : (cs : List ℕ) → Leads cs → IsReduced cs
IsReduced-of_Leads [] h = h
IsReduced-of_Leads (c ∷ []) h = tt
IsReduced-of_Leads (c ∷ d ∷ cs) h = h

-- With enough room the loop leaves exactly the numeral of a positive value.
pub push_digits-IsNumeral :
    (room v : ℕ) → 0 < v → v < 10 ^ room → IsNumeral v (push_digits room v [])
push_digits-IsNumeral room v h k = record {
  digits = push_digits-IsDigit room v;
  stands_for = number-push_digits room v k;
  reduced = IsReduced-of_Leads _ (push_digits-Leads room v h k);
}

pub zero-IsNumeral : IsNumeral 0 (b'0' ∷ [])
zero-IsNumeral = record { digits = omega arith; stands_for = unfold number in refl; reduced = tt }
