-- ===== src/Kutils/Strings.antt =====
-- The string functions of kernel/core/kutils.c. A pointer is the list of the bytes from it to the
-- end of its object, a returned pointer an offset; `none` is an access past the end of an object,
-- and the objects of one call do not overlap.
pub mod Text
pub mod Copies
pub mod Compare
pub mod Find
use punix.Base.{
  ℕ, zero, suc, ◌+◌, Bool, true, false, not, ◌&&◌, ◌||◌, Option, none, some, List, [], ◌∷◌, ◌==◌,
  ◌!=◌, if◌then◌else◌, map?, ◌>>=◌,
}
use punix.Base.Int.{ℤ, pos, sub_ℕ}

pub memcpy : List ℕ → List ℕ → ℕ → Option (List ℕ)
memcpy dest src zero = some dest
memcpy [] src (suc n) = none
memcpy (d ∷ dest) [] (suc n) = none
memcpy (d ∷ dest) (s ∷ src) (suc n) = map? (λ rest. s ∷ rest) (memcpy dest src n)

-- `value` is already cut to a byte.
pub memset : List ℕ → ℕ → ℕ → Option (List ℕ)
memset dest value zero = some dest
memset [] value (suc n) = none
memset (d ∷ dest) value (suc n) = map? (λ rest. value ∷ rest) (memset dest value n)

pub strlen : List ℕ → Option ℕ
strlen [] = none
strlen (c ∷ s) = if c == 0 then some 0 else map? suc (strlen s)

pub strcmp : List ℕ → List ℕ → Option ℤ
strcmp [] b = none
strcmp (x ∷ a) [] = none
strcmp (x ∷ a) (y ∷ b) = if x != 0 && x == y then strcmp a b else some (sub_ℕ x y)

pub strncmp : List ℕ → List ℕ → ℕ → Option ℤ
strncmp a b zero = some (pos 0)
strncmp [] b (suc n) = none
strncmp (x ∷ a) [] (suc n) = none
strncmp (x ∷ a) (y ∷ b) (suc n) =
    if x != y || (x == 0 || y == 0) then some (sub_ℕ x y) else strncmp a b n

strchr_from : List ℕ → ℕ → Option (Option ℕ)
strchr_from [] c = none
strchr_from (x ∷ s) c =
    if x == 0
    then some (if c == 0 then some 0 else none)
    else if x == c
    then some (some 0)
    else map? (map? suc) (strchr_from s c)

-- `none` as the argument is a null pointer, `some none` as the result too.
pub strchr : Option (List ℕ) → ℕ → Option (Option ℕ)
unfolding strchr_from
strchr none c = some none
strchr (some s) c = strchr_from s c

pub strcpy : List ℕ → List ℕ → Option (List ℕ)
strcpy dest [] = none
strcpy [] (c ∷ src) = none
strcpy (d ∷ dest) (c ∷ src) =
    if c == 0 then some (c ∷ dest) else map? (λ rest. c ∷ rest) (strcpy dest src)

pub strcat : List ℕ → List ℕ → Option (List ℕ)
unfolding strcpy
strcat [] src = none
strcat (d ∷ dest) src =
    if d == 0 then strcpy (d ∷ dest) src else map? (λ rest. d ∷ rest) (strcat dest src)

-- The first loop copies, the second one pads from where the first stopped.
pub strncpy : List ℕ → List ℕ → ℕ → Option (List ℕ)
unfolding memset
strncpy dest src zero = some dest
strncpy dest [] (suc n) = none
strncpy [] (c ∷ src) (suc n) = none
strncpy (d ∷ dest) (c ∷ src) (suc n) =
    if c == 0 then memset (d ∷ dest) 0 (suc n) else map? (λ rest. c ∷ rest) (strncpy dest src n)

strrchr_from : List ℕ → ℕ → ℕ → Option ℕ → Option (Option ℕ)
strrchr_from [] c i last = none
strrchr_from (x ∷ s) c i last =
    if x == 0 then some last else strrchr_from s c (i + 1) (if x == c then some i else last)

pub strrchr : List ℕ → ℕ → Option (Option ℕ)
unfolding strrchr_from
strrchr s c = strrchr_from s c 0 none

-- The inner loop of `k_strstr`, and the test after it.
matches : List ℕ → List ℕ → Option Bool
matches [] n = none
matches (x ∷ h) [] = none
matches (x ∷ h) (y ∷ n) = if x != 0 && (y != 0 && x == y) then matches h n else some (y == 0)

strstr_from : List ℕ → List ℕ → ℕ → Option (Option ℕ)
strstr_from [] n i = none
strstr_from (x ∷ h) n i =
    if x == 0
    then some none
    else do found ← matches (x ∷ h) n; if found then some (some i) else strstr_from h n (i + 1)

pub strstr : Option (List ℕ) → Option (List ℕ) → Option (Option ℕ)
unfolding strstr_from matches
strstr none needle = some none
strstr (some h) none = some none
strstr (some h) (some []) = none
strstr (some h) (some (y ∷ n)) = if y == 0 then some (some 0) else strstr_from h (y ∷ n) 0
