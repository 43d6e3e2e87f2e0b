-- ===== src/Kutils/Decimal/RoundTrip.antt =====
-- What `k_itoa` and `u64_to_str` leave in the buffer, and that `k_atoi` reads it back.
use punix.Base.{
  ℕ, zero, suc, ◌+◌, ◌-◌, ◌*◌, ◌^◌, ◌≤◌, ◌<◌, ◌≡◌, refl, Option, some, List, [], ◌∷◌, ◌++◌, arith,
  length, length-append, All, append_assoc, drop, take, min, ltb, if◌then◌else◌, ◌∙◌, ap, lt→ltb,
  le→ltb, ne→==, ◌≢◌,
}
use punix.Base.Int.{ℤ, pos, negsuc}
use punix.Kutils.Strings.Text.{cstr}
use punix.Kutils.Decimal.{
  store_all, push_digits, itoa, atoi, atoi_from, atoi_step, u64_to_str, zero_text, itoa_magnitude,
  itoa_sign, is_zero,
}
use punix.Kutils.Decimal.Digits.{
  IsDigit, number, IsNumeral, IsReduced, push_digits-IsNumeral, zero-IsNumeral, length-push_digits,
}

store_all_lem :
    (cs buf : List ℕ)
    → length cs ≤ length buf
    → store_all cs buf ≡ some (cs ++ drop (length cs) buf)
unfolding store_all
store_all_lem [] buf h = refl
store_all_lem (c ∷ cs) [] h = absurd (omega arith)
store_all_lem (c ∷ cs) (b ∷ buf) h = rw (store_all_lem cs buf (omega arith))

-- A text stored with a terminator.
store_text :
    (cs buf : List ℕ)
    → suc (length cs) ≤ length buf
    → store_all (cs ++ (0 ∷ [])) buf ≡ some (cstr cs (drop (suc (length cs)) buf))
store_text cs buf h =
    let e : length (cs ++ (0 ∷ [])) ≡ suc (length cs) = omega (arith, length-append cs (0 ∷ [])) in
    store_all_lem (cs ++ (0 ∷ [])) buf (rw e h) ∙ rw (e, append_assoc) refl

-- `numeral` is the decimal numeral of `n`, and `out` the buffer with `sign` and it at the start.
pub record Printed (sign : List ℕ) (n : ℕ) (buf out : List ℕ) : Type 0 where
  pub numeral : List ℕ
  pub is_numeral : IsNumeral n numeral
  pub stored : out ≡ cstr (sign ++ numeral) (drop (suc (length (sign ++ numeral))) buf)

ten_digits : (n : ℕ) → n < 2 ^ 31 → length (push_digits 15 n []) ≤ 10
ten_digits n h = length-push_digits 15 n 10 (omega arith)

print_digits :
    (sign : List ℕ) (n : ℕ) (buf : List ℕ)
    → 0 < n
    → n < 2 ^ 31
    → length sign + 11 ≤ length buf
    → (out : List ℕ) × (store_all ((sign ++ push_digits 15 n []) ++ (0 ∷ [])) buf ≡ some out)
      × Printed sign n buf out
print_digits sign n buf pos' small room = (
  _,
  store_text (sign ++ push_digits 15 n []) buf
      (omega (arith, ten_digits n small, length-append sign (push_digits 15 n []))),
  record {
    numeral = push_digits 15 n [];
    is_numeral = push_digits-IsNumeral 15 n pos' (omega arith);
    stored = refl;
  },
)

-- The sign and the magnitude of an int, and the ints of which `-value` is defined.
abbrev pub sign_of : ℤ → List ℕ
sign_of (pos n) = []
sign_of (negsuc n) = b'-' ∷ []

abbrev pub magnitude_of : ℤ → ℕ
magnitude_of (pos n) = n
magnitude_of (negsuc n) = suc n

-- In a buffer of 12 bytes `k_itoa` prints every int but the least: the decimal numeral of the
-- magnitude, behind a minus sign if the value is negative, and a terminator. The rest of the buffer
-- stays as it was.
pub itoa_lem :
    (value : ℤ) (buf : List ℕ)
    → magnitude_of value < 2 ^ 31
    → 12 ≤ length buf
    → (out : List ℕ) × (itoa value buf ≡ some out)
      × Printed (sign_of value) (magnitude_of value) buf out
unfolding itoa itoa_magnitude itoa_sign is_zero
itoa_lem (pos zero) buf h room = (
  _,
  store_text (b'0' ∷ []) buf (omega arith),
  record { numeral = b'0' ∷ []; is_numeral = zero-IsNumeral; stored = refl },
)
itoa_lem (pos (suc n)) buf h room =
    rw (ne→== (suc n) 0 (omega arith)) (print_digits [] (suc n) buf (omega arith) h (omega arith))
itoa_lem (negsuc n) buf h room =
    rw (lt→ltb n (2 ^ 31 - 1) (omega arith))
      (print_digits (b'-' ∷ []) (suc n) buf (omega arith) h (omega arith))

number_grows : (v : ℕ) (cs : List ℕ) → v ≤ number v cs
unfolding number
number_grows v [] = omega arith
number_grows v (c ∷ cs) = omega (arith, number_grows (v * 10 + (c - b'0')) cs)

-- The loop of `k_atoi` stops at the byte behind the digits.
atoi_from_lem :
    (cs rest : List ℕ) (v : ℕ)
    → All IsDigit cs
    → number v cs < 2 ^ 31
    → atoi_from (cs ++ (0 ∷ rest)) v ≡ some (number v cs)
unfolding atoi_from atoi_step number
atoi_from_lem [] rest v d h = refl
atoi_from_lem (c ∷ cs) rest v d h =
    ground (
      arith,
      number_grows (v * 10 + (c - b'0')) cs,
      atoi_from_lem cs rest (v * 10 + (c - b'0')) d.1,
    )

pub atoi_numeral :
    (n : ℕ) (cs rest : List ℕ) → IsNumeral n cs → n < 2 ^ 31 → atoi (some (cstr cs rest)) ≡ some n
unfolding atoi
atoi_numeral n cs rest is h =
    atoi_from_lem cs rest 0 is.digits (rw is.stands_for h) ∙ ap some is.stands_for

-- `k_atoi` reads back every non-negative int that `k_itoa` has printed.
pub atoi-itoa :
    (n : ℕ) (buf : List ℕ)
    → n < 2 ^ 31
    → 12 ≤ length buf
    → (out : List ℕ) × (itoa (pos n) buf ≡ some out) × (atoi (some out) ≡ some n)
atoi-itoa n buf h room =
    let (out, e, p) = itoa_lem (pos n) buf h room in
    (out, e, rw p.stored (atoi_numeral n p.numeral _ p.is_numeral h))

length-take : (k : ℕ) (xs : List ℕ) → length (take k xs) ≡ min k (length xs)
length-take zero xs = omega arith
length-take (suc k) [] = omega arith
length-take (suc k) (x ∷ xs) = omega (arith, length-take k xs)

-- `len` characters are copied, and `len` is the shorter of the text and the room.
copied : (i size : ℕ) → (if ltb i (size - 1) then i else size - 1) ≡ min (size - 1) i
copied i size = ground arith

-- A numeral of which `min (size - 1) (length numeral)` characters are stored and counted.
pub record Fitted (n size : ℕ) (buf : List ℕ) (r : Option (ℕ × Option (List ℕ))) : Type 0 where
  pub numeral : List ℕ
  pub is_numeral : IsNumeral n numeral
  pub count : ℕ
  pub counted : count ≡ min (size - 1) (length numeral)
  pub stored : r ≡ some (count, some (cstr (take count numeral) (drop (suc count) buf)))

store_taken :
    (k : ℕ) (cs buf : List ℕ)
    → k ≤ length cs
    → suc k ≤ length buf
    → store_all (take k cs ++ (0 ∷ [])) buf ≡ some (cstr (take k cs) (drop (suc k) buf))
store_taken k cs buf h room =
    let e : length (take k cs) ≡ k = omega (arith, length-take k cs) in
    store_text (take k cs) buf (rw e room) ∙ rw e refl

nonempty : (cs : List ℕ) → IsReduced cs → length cs ≢ 0
nonempty [] h = absurd h
nonempty (c ∷ cs) h = omega arith

-- Any 64-bit value is printed in full, with a terminator, if the buffer has room for its numeral;
-- in a smaller buffer of at least two bytes the leading digits and the terminator are stored. The
-- result is the number of digits stored.
pub u64_to_str_lem :
    (n size : ℕ) (buf : List ℕ)
    → n < 2 ^ 64
    → 2 ≤ size
    → size ≤ length buf
    → Fitted n size buf (u64_to_str n (some buf) size)
unfolding u64_to_str zero_text
u64_to_str_lem zero size buf small two room = record {
  numeral = b'0' ∷ [];
  is_numeral = zero-IsNumeral;
  count = 1;
  counted = omega arith;
  stored =
      rw (ne→== size 0 (omega arith), le→ltb size 2 two, store_text (b'0' ∷ []) buf (omega arith));
}
u64_to_str_lem (suc n) size buf small two room =
    let ds = push_digits 32 (suc n) [] in
    let is : IsNumeral (suc n) ds = push_digits-IsNumeral 32 (suc n) (omega arith) (omega arith) in
    record {
      numeral = ds;
      is_numeral = is;
      count = min (size - 1) (length ds);
      counted = refl;
      stored = rw (
        ne→== size 0 (omega arith),
        ne→== (suc n) 0 (omega arith),
        ne→== (length ds) 0 (nonempty ds is.reduced),
        copied (length ds) size,
        store_taken (min (size - 1) (length ds)) ds buf (omega arith) (omega arith),
      );
    }
