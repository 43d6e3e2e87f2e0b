-- ===== src/Kutils/Strings/Find.antt =====
-- What the searching functions find.
use punix.Base.{
  ℕ, suc, ◌+◌, ◌≡◌, refl, Bool, true, false, Option, none, some, List, [], ◌∷◌, ◌++◌, arith, map?,
  if◌then◌else◌, ◌==◌, ◌&&◌, ne→==,
}
use punix.Kutils.Strings.{strchr_from, strchr, strrchr_from, strrchr, matches, strstr_from, strstr}
use punix.Kutils.Strings.Text.{IsText, cstr}

-- The first and the last position of a character.
abbrev pub first_index : List ℕ → ℕ → Option ℕ
first_index [] c = none
first_index (x ∷ t) c = if x == c then some 0 else map? suc (first_index t c)

abbrev pub last_index : List ℕ → ℕ → Option ℕ
last_index [] c = none
last_index (x ∷ t) c = elim (last_index t c) [
  | some i ↦ some (suc i)
  | none ↦ if x == c then some 0 else none
]

abbrev pub prefix_of : List ℕ → List ℕ → Bool
prefix_of [] t = true
prefix_of (y ∷ n) [] = false
prefix_of (y ∷ n) (x ∷ t) = x == y && prefix_of n t

-- The first position at which `n` occurs in a string that is not exhausted.
abbrev pub first_occurrence : List ℕ → List ℕ → Option ℕ
first_occurrence n [] = none
first_occurrence n (x ∷ t) = if prefix_of n (x ∷ t) then some 0 else map? suc (first_occurrence n t)

abbrev pub found_at : List ℕ → List ℕ → Option ℕ
found_at [] t = some 0
found_at (y ∷ n) t = first_occurrence (y ∷ n) t

strchr_from_lem :
    (t rest : List ℕ) (c : ℕ)
    → IsText t
    → strchr_from (cstr t rest) c ≡ some (first_index (t ++ (0 ∷ [])) c)
unfolding strchr_from
strchr_from_lem [] rest c h = ground arith
strchr_from_lem (x ∷ t) rest c h = ground (arith, strchr_from_lem t rest c h.1)

-- `k_strchr` returns the first place of the character, where the terminator counts as a character
-- of the string; for a null pointer, and if there is none, it returns a null pointer.
pub strchr_lem :
    (t rest : List ℕ) (c : ℕ)
    → IsText t
    → (strchr (some (cstr t rest)) c ≡ some (first_index (t ++ (0 ∷ [])) c))
      × (strchr none c ≡ some none)
unfolding strchr
strchr_lem t rest c h = (strchr_from_lem t rest c h, refl)

abbrev later : Option ℕ → ℕ → Option ℕ → Option ℕ
later none i last = last
later (some k) i last = some (i + k)

strrchr_from_lem :
    (t rest : List ℕ) (c i : ℕ) (last : Option ℕ)
    → IsText t
    → strrchr_from (cstr t rest) c i last ≡ some (later (last_index t c) i last)
unfolding strrchr_from
strrchr_from_lem [] rest c i last h = refl
strrchr_from_lem (x ∷ t) rest c i last h =
    ground (arith, strrchr_from_lem t rest c (i + 1) (if x == c then some i else last) h.1)

-- `k_strrchr` returns the last place of the character among those before the terminator.
pub strrchr_lem :
    (t rest : List ℕ) (c : ℕ) → IsText t → strrchr (cstr t rest) c ≡ some (last_index t c)
unfolding strrchr
strrchr_lem t rest c h = ground (arith, strrchr_from_lem t rest c 0 none h)

matches_lem :
    (t n rest r : List ℕ)
    → IsText t
    → IsText n
    → matches (cstr t rest) (cstr n r) ≡ some (prefix_of n t)
unfolding matches
matches_lem [] [] rest r ht hn = refl
matches_lem [] (y ∷ n) rest r ht hn = ground arith
matches_lem (x ∷ t) [] rest r ht hn = ground arith
matches_lem (x ∷ t) (y ∷ n) rest r ht hn = ground (arith, matches_lem t n rest r ht.1 hn.1)

strstr_from_lem :
    (t n rest r : List ℕ) (i : ℕ)
    → IsText t
    → IsText n
    → strstr_from (cstr t rest) (cstr n r) i ≡ some (map? (λ k. i + k) (first_occurrence n t))
unfolding strstr_from
strstr_from_lem [] n rest r i ht hn = refl
strstr_from_lem (x ∷ t) n rest r i ht hn =
    rw (ne→== x 0 (omega arith), matches_lem (x ∷ t) n rest r ht hn)
      (ground (arith, strstr_from_lem t n rest r (i + 1) ht.1 hn))

-- `k_strstr` returns the first place at which a needle that is not empty occurs, the start of the
-- haystack for an empty needle, and a null pointer if an argument is null or nothing is found.
pub strstr_lem :
    (t n rest r : List ℕ)
    → IsText t
    → IsText n
    → (strstr (some (cstr t rest)) (some (cstr n r)) ≡ some (found_at n t))
      × (strstr none (some (cstr n r)) ≡ some none)
      × (strstr (some (cstr t rest)) none ≡ some none)
unfolding strstr
strstr_lem t [] rest r ht hn = (refl, refl, refl)
strstr_lem t (y ∷ n) rest r ht hn =
    (ground (arith, strstr_from_lem t (y ∷ n) rest r 0 ht hn), refl, refl)
