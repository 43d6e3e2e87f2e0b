-- ===== src/Kutils/Decimal.antt =====
-- The conversions between numbers and text of kernel/core/kutils.c. The array in which a function
-- collects its digits is a stack, the last one written first: it is filled by `tmp[i++] = ...` and
-- emptied by `tmp[--i]`. `none` is a store past the end of the caller's buffer, or an undefined
-- signed operation.
pub mod Digits
pub mod RoundTrip
use punix.Base.{
  ℕ, zero, suc, ◌+◌, ◌-◌, ◌*◌, ◌/◌, ◌%◌, ◌^◌, ◌&&◌, Bool, true, false, Option, none, some, List, [],
  ◌∷◌, ◌++◌, bit_and, leb, ltb, length, ◌==◌, if◌then◌else◌, map?, ◌>>=◌, take,
}
use punix.Base.Int.{ℤ, pos, negsuc}

-- `str[j++] = ...` for each character, from the start of the buffer.
pub store_all : List ℕ → List ℕ → Option (List ℕ)
store_all [] buf = some buf
store_all (c ∷ cs) [] = none
store_all (c ∷ cs) (b ∷ buf) = map? (λ rest. c ∷ rest) (store_all cs buf)

-- `while (value > 0 && i < room) { tmp[i++] = '0' + value % 10; value /= 10; }`
pub push_digits : ℕ → ℕ → List ℕ → List ℕ
push_digits zero value tmp = tmp
push_digits (suc room) value tmp =
    let rest = push_digits room (value / 10) ((b'0' + value % 10) ∷ tmp) in
    if ltb 0 value then rest else tmp

-- The magnitude of an `int`; `-value` is undefined at INT_MIN.
pub itoa_magnitude : ℤ → Option ℕ
itoa_magnitude (pos n) = some n
itoa_magnitude (negsuc n) = if ltb n (2 ^ 31 - 1) then some (suc n) else none

pub itoa_sign : ℤ → List ℕ → List ℕ
itoa_sign (pos n) tmp = tmp
itoa_sign (negsuc n) tmp = b'-' ∷ tmp

pub is_zero : ℤ → Bool
is_zero (pos n) = n == 0
is_zero (negsuc n) = false

pub itoa : ℤ → List ℕ → Option (List ℕ)
itoa value str = if is_zero value then store_all (b'0' ∷ 0 ∷ []) str else do
  n ← itoa_magnitude value
  store_all (itoa_sign value (push_digits 15 n []) ++ (0 ∷ [])) str

-- `"0123456789abcdef"[d]`
pub hex_digit : ℕ → ℕ
hex_digit d = if ltb d 10 then b'0' + d else b'a' + (d - 10)

-- `while (value > 0) { temp[i++] = hex_digits[value & 0xF]; value >>= 4; }`; `temp` has 9 places,
-- and `none` is a write past them.
pub push_hex : ℕ → ℕ → List ℕ → Option (List ℕ)
push_hex zero value temp = if ltb 0 value then none else some temp
push_hex (suc room) value temp =
    let rest = push_hex room (value / 2 ^ 4) (hex_digit (bit_and value 0xf) ∷ temp) in
    if ltb 0 value then rest else some temp

pub itoa_hex : ℕ → List ℕ → Option (List ℕ)
itoa_hex value str =
    if value == 0
    then store_all (b'0' ∷ 0 ∷ []) str
    else do temp ← push_hex 9 value []; store_all (temp ++ (0 ∷ [])) str

-- `v = v * 10 + (*s - '0')`; overflow of `int` is undefined.
pub atoi_step : ℕ → ℕ → Option ℕ
atoi_step v c = let next = v * 10 + (c - b'0') in if ltb next (2 ^ 31) then some next else none

pub atoi_from : List ℕ → ℕ → Option ℕ
atoi_from [] v = none
atoi_from (c ∷ s) v =
    let rest = atoi_step v c >>= atoi_from s in if leb b'0' c && leb c b'9' then rest else some v

pub atoi : Option (List ℕ) → Option ℕ
atoi none = some 0
atoi (some s) = atoi_from s 0

-- `buf[0] = '0'; buf[1] = '\0'; return 1;` if there is room.
pub zero_text : ℕ → List ℕ → Option (ℕ × Option (List ℕ))
zero_text buf_size buf =
    if ltb buf_size 2
    then some (0, some buf)
    else map? (λ out. (1, some out)) (store_all (b'0' ∷ 0 ∷ []) buf)

-- `none` as the buffer is a null pointer. The result is the return value and the new buffer.
pub u64_to_str : ℕ → Option (List ℕ) → ℕ → Option (ℕ × Option (List ℕ))
u64_to_str value none buf_size = some (0, none)
u64_to_str value (some buf) buf_size =
    if buf_size == 0
    then some (0, some buf)
    else if value == 0
    then zero_text buf_size buf
    else (let tmp = push_digits 32 value [] in
        let i = length tmp in
        let len = if ltb i (buf_size - 1) then i else buf_size - 1 in
        if i == 0
        then zero_text buf_size buf
        else map? (λ out. (len, some out)) (store_all (take len tmp ++ (0 ∷ [])) buf))
