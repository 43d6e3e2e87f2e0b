-- ===== src/Kutils/Strings/Copies.antt =====
-- What the copying functions write, and when they run past the destination.
use native.Mathlib.Nat.{zero-sub, sub-zero}
use punix.Base.{
  ℕ, zero, suc, ◌-◌, ◌≤◌, ◌≡◌, refl, none, some, List, [], ◌∷◌, ◌++◌, arith, leb, length, take,
  drop, replicate, if◌then◌else◌,
}
use punix.Kutils.Strings.{memcpy, memset, strlen, strcpy, strcat, strncpy}
use punix.Kutils.Strings.Text.{IsText, cstr}

-- On a terminated string `k_strlen` stays inside it and returns its length.
pub strlen_lem : (t rest : List ℕ) → IsText t → strlen (cstr t rest) ≡ some (length t)
unfolding strlen
strlen_lem [] rest h = refl
strlen_lem (c ∷ t) rest h = ground (arith, strlen_lem t rest h.1)

pub memcpy_lem :
    (n : ℕ) (dest src : List ℕ)
    → n ≤ length dest
    → n ≤ length src
    → memcpy dest src n ≡ some (take n src ++ drop n dest)
unfolding memcpy
memcpy_lem zero dest src h k = refl
memcpy_lem (suc n) [] src h k = absurd (omega arith)
memcpy_lem (suc n) (d ∷ dest) [] h k = absurd (omega arith)
memcpy_lem (suc n) (d ∷ dest) (s ∷ src) h k = rw (memcpy_lem n dest src (omega arith) (omega arith))

pub memset_lem :
    (n v : ℕ) (dest : List ℕ)
    → n ≤ length dest
    → memset dest v n ≡ some (replicate n v ++ drop n dest)
unfolding memset
memset_lem zero v dest h = refl
memset_lem (suc n) v [] h = absurd (omega arith)
memset_lem (suc n) v (d ∷ dest) h = rw (memset_lem n v dest (omega arith))

-- `k_strcpy` has no bound: with room for the string and its terminator it copies both and leaves
-- the rest of the destination alone, and with less room it writes past the end.
pub strcpy_lem :
    (t rest dest : List ℕ)
    → IsText t
    → strcpy dest (cstr t rest)
      ≡ (if leb (length dest) (length t) then none else some (cstr t (drop (suc (length t)) dest)))
unfolding strcpy
strcpy_lem [] rest [] h = refl
strcpy_lem [] rest (d ∷ dest) h = ground arith
strcpy_lem (c ∷ t) rest [] h = ground arith
strcpy_lem (c ∷ t) rest (d ∷ dest) h = ground (arith, strcpy_lem t rest dest h.1)

-- `k_strcat` puts the source behind the string in the destination, if both fit.
pub strcat_lem :
    (d t old rest : List ℕ)
    → IsText d
    → IsText t
    → length t ≤ length old
    → strcat (cstr d old) (cstr t rest) ≡ some (cstr (d ++ t) (drop (length t) old))
unfolding strcat
strcat_lem [] t old rest hd ht fits = ground (arith, strcpy_lem t rest (0 ∷ old) ht)
strcat_lem (c ∷ d) t old rest hd ht fits = ground (arith, strcat_lem d t old rest hd.1 ht fits)

-- `k_strncpy` writes exactly `n` bytes, the string cut at `n` or padded with zeros up to `n`: at
-- `n` or more characters the result has no terminator.
pub strncpy_lem :
    (n : ℕ) (t rest dest : List ℕ)
    → IsText t
    → n ≤ length dest
    → strncpy dest (cstr t rest) n ≡ some (take n t ++ (replicate (n - length t) 0 ++ drop n dest))
unfolding strncpy
strncpy_lem zero t rest dest h fits = rw (zero-sub (length t)) refl
strncpy_lem (suc n) t rest [] h fits = absurd (omega arith)
strncpy_lem (suc n) [] rest (d ∷ dest) h fits =
    rw (memset_lem n 0 dest (omega arith), sub-zero (suc n)) refl
strncpy_lem (suc n) (c ∷ t) rest (d ∷ dest) h fits = ground (arith, strncpy_lem n t rest dest h.1)
